-- ===== src/Link.antt =====
-- A `time_link` and the `time_item`s chained on it stand for a list of addresses. The chaining of
-- an item at the end is written out in Batonlib/time_wheel.cpp, scheduler.cpp and
-- co_condition.cpp; it is one command here.
pub mod Frame
pub mod Fresh
pub mod Append
pub mod Remove
pub mod Join
use batonlib.Base.{◌≡◌, true, List, [], ◌∷◌, ◌∉◌, first, last, ◌==◌, if◌then◌else◌}
use batonlib.Memory.{
  Ptr, null, Memory, valid, Cmd, ◌>>=◌, ◌>>◌, get_tail, set_head, set_tail, set_next, set_prev,
  set_t_link,
}

-- The items `xs` of link `l`, each with its neighbours; `before` stands in front of the first.
abbrev pub Chain : Memory → Ptr → Ptr → List Ptr → Type 0
Chain m l before [] = Unit {0}
Chain m l before (x ∷ xs) =
    (valid m.item_live x ≡ true)
    × (m.next x ≡ first xs)
    × (m.prev x ≡ before)
    × (m.t_link x ≡ l)
    × (x ∉ xs)
    × Chain m l x xs

pub record IsLink (m : Memory) (l : Ptr) (xs : List Ptr) : Type 0 where
  pub live : valid m.link_live l ≡ true
  pub head : m.head l ≡ first xs
  pub tail : m.tail l ≡ last null xs
  pub chain : Chain m l null xs

append_first : Ptr → Ptr → Cmd (Unit {0})
append_first link item = do
  set_head link item
  set_tail link item
  set_next item null
  set_prev item null

append_behind : Ptr → Ptr → Ptr → Cmd (Unit {0})
append_behind link item tail = do
  set_next tail item
  set_prev item tail
  set_next item null
  set_tail link item

-- Chains `item` behind the last item of `link`.
unfoldable pub append : Ptr → Ptr → Cmd (Unit {0})
unfolding append_first append_behind
append link item = do
  tail ← get_tail link
  if tail == null then append_first link item else append_behind link item tail
  set_t_link item link

-- ===== src/TimeWheel/Take.antt =====
-- `time_wheel::take_all_timeout` takes the items whose deadline has passed.
pub mod Expired
pub mod Exact
mod Slots
pub use Slots.{IsOutside, Enough, Took}
use mathlib.Core.List.{append_assoc}
use batonlib.Base.{
  ℕ, zero, suc, ◌+◌, ◌-◌, ◌%◌, ◌^◌, ◌<◌, ◌≤◌, ◌≡◌, refl, ◌≢◌, sym, ap, ◌∙◌, true, false, some, List,
  [], ◌∷◌, ◌++◌, ◌∈◌, ◌∉◌, length, arith, ◌==◌, ne→==, ltb, le→ltb, lt→ltb, Bool-cases, inl, inr,
  append_nil, not-mem-cons, not-mem-append,
}
use batonlib.Int.{ℤ, pos, negsuc, to_int}
use batonlib.Memory.{Ptr, null, Memory, valid-ne, ok}
use batonlib.Memory.Returns
use batonlib.Memory.Returns.{Returns}
use batonlib.Link.{IsLink}
use batonlib.Link.Frame.{Same, IsLink-frame, not-mem_of_t_link, Chain-t_link}
use batonlib.TimeWheel.{
  TimeWheel, u64_mod, slot_index, take_slot, take_slots, timeout_count, take_counted,
  take_all_timeout,
}
use batonlib.TimeWheel.Splice.{take_slot_lem}
use batonlib.TimeWheel.Ring.{
  Contents, link_at, IsWheel, Due, HasRoom, put_at, IsWheel-put_at, apart, not-mem_of_link,
  slot_lem, slot_index-lt,
}
use Slots.{take_slots-Took}
use Exact.{rounds, expired, pending, Expires, rounds_cases, expired-Expires}

-- The wheel after the call.
pub advanced : TimeWheel → ℕ → TimeWheel
advanced tw now = record tw {
  w_start = now;
  w_index = (tw.w_index + rounds tw now + (u64_mod - 1)) % u64_mod;
}

-- The count of milliseconds fits in an `int`.
timeout_count_lem : (d : ℕ) → d < 2 ^ 31 - 1 → timeout_count true d ≡ some (pos (suc d))
unfolding timeout_count
timeout_count_lem d h = ground arith

take_all_timeout_counted :
    (fuel : ℕ) (m : Memory) (tw : TimeWheel) (now : ℕ) (ret : Ptr)
    → tw.isms ≡ true
    → ret ≢ null
    → tw.w_start ≤ now
    → now < tw.w_start + (2 ^ 31 - 1)
    → take_all_timeout fuel tw now ret m
      ≡ take_counted fuel tw now ret (pos (suc (now - tw.w_start))) m
unfolding take_all_timeout
take_all_timeout_counted fuel m tw now ret ms ne later soon = simp (
  le→ltb now tw.w_start later,
  ne→== ret null ne,
  ms,
  timeout_count_lem (now - tw.w_start) (omega arith),
)

pub IsWheel-advanced :
    (m : Memory) (tw : TimeWheel) (q : Contents) (now : ℕ)
    → IsWheel m tw q
    → IsWheel m (advanced tw now) q
unfolding advanced
IsWheel-advanced m tw q now is = record {
  positive = is.positive;
  width = is.width;
  links = is.links;
  distinct = is.distinct;
}

-- What the call does, whatever the deadlines of the items.
pub take_all_timeout_moves :
    (fuel : ℕ) (m : Memory) (tw : TimeWheel) (q : Contents) (now : ℕ) (ret : Ptr) (rs : List Ptr)
    → tw.isms ≡ true
    → IsWheel m tw q
    → IsLink m ret rs
    → IsOutside tw ret
    → Enough fuel tw q
    → tw.w_start ≤ now
    → now < tw.w_start + (2 ^ 31 - 1)
    → Returns
        (take_all_timeout fuel tw now ret m)
        (λ tw' m'. (tw' ≡ advanced tw now) × Took m tw q ret rs 0 (rounds tw now) m')
unfolding take_counted advanced
take_all_timeout_moves fuel m tw q now ret rs ms is link outside enough later soon =
    rw
      (take_all_timeout_counted fuel m tw now ret ms (valid-ne m.link_live ret link.live) later
        soon)
      (Returns.bind (take_slots fuel tw ret 0 (rounds tw now) m) _ _ _
        (take_slots-Took (rounds tw now) 0 fuel m tw q ret rs is link outside enough)
        (λ _ m' took. (refl, took)))

-- The new index leads to the same slot for a deadline that is still to come.
slot_index-advanced :
    (tw : TimeWheel) (now e : ℕ)
    → HasRoom tw
    → tw.w_start ≤ now
    → now < e
    → e < tw.w_start + tw.w_size
    → slot_index (advanced tw now) (e - now) ≡ slot_index tw (e - tw.w_start)
unfolding slot_index advanced
slot_index-advanced tw now e room later to_come within =
    ap (λ x. x % u64_mod % tw.w_size) (omega (arith, rounds_cases tw now later))

pub Due-advanced :
    (e : Ptr → ℕ) (tw : TimeWheel) (q : Contents) (now : ℕ) (out : List Ptr) (rest : Contents)
    → HasRoom tw
    → tw.w_start ≤ now
    → Due e tw q
    → Expires e tw q now out rest
    → Due e (advanced tw now) rest
unfolding advanced
Due-advanced e tw q now out rest room later due x j a hj h =
    let (to_come, there) = (x.others j a hj).0 h in
    let (lo, up, slot) = due j a hj there in
    (omega arith, omega arith, slot ∙ sym (slot_index-advanced tw now (e a) room later to_come up))

-- At a time not before the wheel's, `take_all_timeout` runs to its end and moves exactly the items
-- whose deadline has passed behind those of the result link, ordered by their deadlines. The
-- others stay, and the wheel, set to the new time, again has each item in the slot of its deadline.
-- The wheel counts milliseconds, its index has room, the time since the last call fits in an
-- `int`, the result link is none of the wheel's, and the fuel exceeds each slot's length.
pub take_all_timeout_lem :
    (fuel : ℕ) (m : Memory) (tw : TimeWheel) (q : Contents) (now : ℕ) (ret : Ptr) (rs : List Ptr)
    → tw.isms ≡ true
    → HasRoom tw
    → IsWheel m tw q
    → Due m.expire_time tw q
    → IsLink m ret rs
    → IsOutside tw ret
    → Enough fuel tw q
    → tw.w_start ≤ now
    → now < tw.w_start + (2 ^ 31 - 1)
    → Returns (take_all_timeout fuel tw now ret m) (λ tw' m'.
      (tw'.w_start ≡ now)
      × Expires m.expire_time tw q now (expired tw q now) (pending tw q now)
      × IsLink m' ret (rs ++ expired tw q now)
      × IsWheel m' tw' (pending tw q now)
      × Due m'.expire_time tw' (pending tw q now))
unfolding advanced
take_all_timeout_lem fuel m tw q now ret rs ms room is due link outside enough later soon =
    let x = expired-Expires m.expire_time tw q now room is.positive due later in
    Returns.mono (take_all_timeout fuel tw now ret m) _ _
      (take_all_timeout_moves fuel m tw q now ret rs ms is link outside enough later soon)
      (λ tw' m' (e, t). rw e (
        refl,
        x,
        t.link,
        IsWheel-advanced m' tw (pending tw q now) now t.wheel,
        rw t.expire_time (Due-advanced m.expire_time tw q now _ _ room later due x),
      ))

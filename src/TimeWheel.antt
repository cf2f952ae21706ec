-- ===== src/TimeWheel.antt =====
-- Batonlib/time_wheel.h and time_wheel.cpp: a ring of links, one for each tick of the clock. The
-- links live in the memory; the wheel's own fields are a record that a command returns anew.
-- Messages written to the log are left out.
pub mod Remove
pub mod Discard
pub mod Splice
pub mod Ring
pub mod Add
pub mod Take
pub mod Limits
pub mod Empty
pub mod Tests
use batonlib.Base.{
  ℕ, zero, suc, ◌+◌, ◌-◌, ◌/◌, ◌%◌, ◌^◌, Bool, true, false, ◌||◌, Option, none, some, List, ltb,
  ◌==◌, if◌then◌else◌, get_elem?, length, [], ◌∷◌,
}
use batonlib.Int.{ℤ, pos, negsuc, to_int, quot, incr, ◌==ℤ◌}
use batonlib.Memory.{
  Ptr, null, Memory, Run, ok, fault, out_of_fuel, Cmd, pure, ◌>>=◌, ◌>>◌, get_head, get_tail,
  set_head, set_tail, get_next, get_prev, get_t_link, get_expire_time, set_next, set_prev,
  set_t_link, new_time_link, delete_link,
}
use batonlib.Link.{append}

abbrev pub u64_mod : ℕ
u64_mod = 2 ^ 64

pub record TimeWheel : Type 0 where
  pub w_size : ℕ
  pub w_start : ℕ
  pub w_index : ℕ
  pub time_wheel : List Ptr
  pub isms : Bool

-- `time_wheel_[index]`; past the end of the vector it is undefined.
pub slot : TimeWheel → ℕ → Cmd Ptr
slot tw index m = elim (get_elem? tw.time_wheel index) [ none ↦ fault | some l ↦ ok l m ]

-- What `add_timeout` returns: -1, or nothing, since its last path has no `return`.
pub data AddResult : Type 0 where
  minus_one no_value : AddResult

-- The ticks from the wheel's time to the item's, as the unsigned difference of the source.
pub ticks : TimeWheel → ℕ → ℕ
ticks tw time =
    let diff = (time + u64_mod - tw.w_start) % u64_mod in if tw.isms then diff else diff / 1000

unfoldable pub slot_index : TimeWheel → ℕ → ℕ
slot_index tw diff = (tw.w_index + diff) % u64_mod % tw.w_size

add_in_slot : TimeWheel → Ptr → ℕ → Cmd AddResult
add_in_slot tw item diff = do link ← slot tw (slot_index tw diff); append link item; pure no_value

pub add_timeout : TimeWheel → Ptr → Cmd AddResult
add_timeout tw item = do
  time ← get_expire_time item
  let diff = ticks tw time
  if ltb tw.w_size diff then pure minus_one else add_in_slot tw item diff

unlink_front : Ptr → Ptr → Ptr → Cmd (Unit {0})
unlink_front link item head =
    if item == head
    then (do
      next ← get_next item
      set_head link next
      head' ← get_head link
      if head' == null then pure tt else set_prev head' null)
    else (do
      prev ← get_prev item
      if prev == null then pure tt else (do next ← get_next item; set_next prev next))

unlink_back : Ptr → Ptr → Ptr → Cmd (Unit {0})
unlink_back link item tail =
    if item == tail
    then (do
      prev ← get_prev item
      set_tail link prev
      tail' ← get_tail link
      if tail' == null then pure tt else set_next tail' null)
    else (do next ← get_next item; prev ← get_prev item; set_prev next prev)

pub removeitem : Ptr → Cmd (Unit {0})
unfolding unlink_front unlink_back
removeitem item = do
  link ← get_t_link item
  head ← get_head link
  unlink_front link item head
  tail ← get_tail link
  unlink_back link item tail
  set_prev item null
  set_next item null
  set_t_link item null

-- `while(node){ node->t_link = ret_link; node = node->next; }`
pub relabel : ℕ → Ptr → Ptr → Cmd (Unit {0})
relabel zero ret_link node = λ _. out_of_fuel
relabel (suc fuel) ret_link node =
    if node == null
    then pure tt
    else do set_t_link node ret_link; next ← get_next node; relabel fuel ret_link next

-- Moves the items of the non-empty link `from` behind those of `ret_link`.
unfoldable pub splice : Ptr → Ptr → Cmd (Unit {0})
splice ret_link from = do
  node ← get_head from
  tail ← get_tail ret_link
  if tail == null
      then (do
        last ← get_tail from
        set_tail ret_link last
        first ← get_head from
        set_head ret_link first)
      else (do set_prev node tail; set_next tail node; last ← get_tail from; set_tail ret_link last)
  set_head from null
  set_tail from null

-- One round of the loop over the slots that have run out.
unfoldable pub take_slot : ℕ → Ptr → Ptr → Cmd (Unit {0})
take_slot fuel ret_link from = do
  head ← get_head from
  if head == null then pure tt else (do relabel fuel ret_link head; splice ret_link from)

pub take_slots : ℕ → TimeWheel → Ptr → ℕ → ℕ → Cmd (Unit {0})
take_slots fuel tw ret_link i zero = pure tt
take_slots fuel tw ret_link i (suc rounds) = do
  from ← slot tw (slot_index tw i)
  take_slot fuel ret_link from
  take_slots fuel tw ret_link (suc i) rounds

-- `int count` before it is bounded; `none` where `count++` overflows.
pub timeout_count : Bool → ℕ → Option ℤ
timeout_count false diff = some (incr (quot (to_int diff) 1000))
timeout_count true diff =
    if to_int diff ==ℤ pos (2 ^ 31 - 1) then none else some (incr (to_int diff))

take_counted : ℕ → TimeWheel → ℕ → Ptr → ℤ → Cmd TimeWheel
take_counted fuel tw nowtime ret_link (pos count) = do
  let rounds = if ltb tw.w_size count then tw.w_size else count
  take_slots fuel tw ret_link 0 rounds
  pure (record tw { w_start = nowtime; w_index = (tw.w_index + rounds + (u64_mod - 1)) % u64_mod })
take_counted fuel tw nowtime ret_link (negsuc n) = pure tw

-- `fuel` bounds the walk along one slot.
pub take_all_timeout : ℕ → TimeWheel → ℕ → Ptr → Cmd TimeWheel
take_all_timeout fuel tw nowtime ret_link =
    if ltb nowtime tw.w_start || ret_link == null
    then pure tw
    else elim (timeout_count tw.isms (nowtime - tw.w_start)) [
      | none ↦ λ m. fault
      | some count ↦ take_counted fuel tw nowtime ret_link count
    ]

-- `time_wheel_[i] = new time_link` for each address.
new_links : List Ptr → Cmd (Unit {0})
new_links [] = pure tt
new_links (l ∷ ls) = do new_time_link l; new_links ls

-- The constructor at the time `now`, with the addresses of the new links, one for each slot.
pub new_time_wheel : List Ptr → Bool → ℕ → Cmd TimeWheel
new_time_wheel ls isms now = do
  new_links ls
  pure (record { w_size = length ls; w_start = now; w_index = 0; time_wheel = ls; isms = isms })

-- The destructor.
delete_links : List Ptr → Cmd (Unit {0})
delete_links [] = pure tt
delete_links (l ∷ ls) = do delete_link l; delete_links ls

delete_time_wheel : TimeWheel → Cmd (Unit {0})
delete_time_wheel tw = delete_links tw.time_wheel

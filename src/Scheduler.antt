-- ===== src/Scheduler.antt =====
-- Batonlib/scheduler.cpp: one round of `scheduler::event_loop`, up to the run of the collected
-- coroutines and that run. What `epoll_wait` reports and the clock are arguments; a resumed
-- coroutine is a command of its own.
pub mod Spares
pub mod Active
pub mod Ready
pub mod Timeouts
mod Join
pub mod Round
pub mod Whole
pub mod Run
pub mod Register
mod Tests
use batonlib.Base.{
  ℕ, zero, suc, ◌<◌, Bool, true, false, Option, none, some, List, [], ◌∷◌, ltb, ◌==◌, if◌then◌else◌,
}
use batonlib.Memory.{
  Ptr, null, Memory, out_of_fuel, Cmd, pure, ◌>>=◌, ◌>>◌, get_t_item, get_co, get_item,
  get_expire_time, get_t_link, get_next, get_head, get_tail, set_head, set_tail, set_next, set_prev,
  set_t_link, set_isremove, set_is_timeout,
}
use batonlib.Link.{append}
use batonlib.TimeWheel.{TimeWheel, removeitem, take_all_timeout, relabel}

-- The two links of the scheduler's `co_epoll`, and its time wheel.
pub record Scheduler : Type 0 where
  pub active_link : Ptr
  pub timeout_link : Ptr
  pub tw : TimeWheel

-- Chains the item of a ready event on the active link; `false` where the loop returns because the
-- item still stands on a link.
pub add_active : Ptr → Ptr → Cmd Bool
add_active active t_item = do
  link ← get_t_link t_item
  if link == null then (do append active t_item; pure true) else pure false

-- A ready event: its timer is taken off the wheel.
pub add_ready : Ptr → Ptr → Cmd Bool
add_ready active event = do
  t_item ← get_t_item event
  set_isremove t_item true
  time ← get_expire_time t_item
  if ltb 0 time then removeitem t_item else pure tt
  add_active active t_item

-- The events that `poll` reported, in its order.
pub collect_ready : Ptr → List Ptr → Cmd Bool
collect_ready active [] = pure true
collect_ready active (event ∷ events) = do
  added ← add_ready active event
  if added then collect_ready active events else pure false

-- `while(ti){ ti->item->is_timeout = true; ti = ti->next; }`
pub mark_timeouts : ℕ → Ptr → Cmd (Unit {0})
mark_timeouts zero ti = λ _. out_of_fuel
mark_timeouts (suc fuel) ti = if ti == null then pure tt else do
  event ← get_item ti
  set_is_timeout event true
  next ← get_next ti
  mark_timeouts fuel next

-- Joins the timeout link to the active one.
pub join_timeout : ℕ → Ptr → Ptr → Cmd (Unit {0})
join_timeout fuel active timeout = do
  head ← get_head timeout
  if head == null then pure tt else (do
    relabel fuel active head
    ti ← get_head timeout
    tail ← get_tail active
    if tail == null
        then (do
          first ← get_head timeout
          set_head active first
          last ← get_tail timeout
          set_tail active last)
        else (do set_next tail ti; set_prev ti tail; last ← get_tail timeout; set_tail active last)
    set_tail timeout null
    set_head timeout null)

-- Takes the expired items, marks their events, and moves them behind the active ones.
pub collect_timeouts : ℕ → Scheduler → ℕ → Cmd Scheduler
collect_timeouts fuel sch now = do
  tw ← take_all_timeout fuel sch.tw now sch.timeout_link
  first ← get_head sch.timeout_link
  mark_timeouts fuel first
  join_timeout fuel sch.active_link sch.timeout_link
  pure (record sch { tw = tw })

-- The first half of a round: the reported events, then the timeouts; `none` where the loop returns.
pub collect_round : ℕ → Scheduler → ℕ → List Ptr → Cmd (Option Scheduler)
collect_round fuel sch now events = do
  added ← collect_ready sch.active_link events
  if added then (do sch' ← collect_timeouts fuel sch now; pure (some sch')) else pure none

-- Takes the first item off the active link.
pub pop_active : Ptr → Ptr → Cmd (Unit {0})
pop_active active first = do
  tail ← get_tail active
  if first == tail
      then (do set_head active null; set_tail active null)
      else (do next ← get_next first; set_head active next)
  set_prev first null
  set_next first null
  set_t_link first null
  head ← get_head active
  if head == null then pure tt else set_prev head null

-- Resumes the coroutine of each active item, also of those that a resumed one adds.
pub run_active : ℕ → Ptr → (Ptr → Cmd (Unit {0})) → Cmd (Unit {0})
run_active zero active resume = λ _. out_of_fuel
run_active (suc fuel) active resume = do
  first ← get_head active
  if first == null then pure tt else (do
    pop_active active first
    event ← get_item first
    co ← get_co event
    resume co
    run_active fuel active resume)

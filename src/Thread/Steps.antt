-- ===== src/Thread/Steps.antt =====
-- A thread that is started, and the one that starts it, in any order of their steps.
use batonlib.Base.{ℕ, Bool, true, false, Option, none, some, List, [], ◌∷◌}
use batonlib.Int.{pos}
use batonlib.Monitor.{notify, proceed}
use batonlib.Thread.{Thread, new_thread, start, await_tid, set_tid, tell, join}

-- Where the new thread is: not there yet, before it has its number, with it, past the latch, or at its
-- end.
pub data Child : Type 0 where
  absent : Child
  begun : Child
  numbered : Child
  told : Child
  ended : Child

-- And where the other one is: outside of `start`, before its wait, asleep in it, behind `start`, or
-- behind `join`.
pub data Caller : Type 0 where
  outside : Caller
  arriving : Caller
  asleep : Caller
  started : Caller
  joined : Caller

pub record Pair : Type 0 where
  pub thread : Thread
  pub child : Child
  pub caller : Caller

unfoldable pub fresh : Pair
fresh = record { thread = new_thread; child = absent; caller = outside }

-- `waking` is a wake-up without a signal.
pub data Event : Type 0 where
  starting : (created : Bool) → Event
  waiting : Event
  waking : (i : ℕ) → Event
  going_on : (j : ℕ) → Event
  numbering : Event
  telling : Event
  ending : Event
  joining : Event

unfoldable pub after_start : Pair → Option (Bool × Thread) → Option Pair
after_start p none = none
after_start p (some (true, t)) = some (record p { thread = t; child = begun; caller = arriving })
after_start p (some (false, t)) = some (record p { thread = t })

unfoldable pub after_wait : Pair → Bool × Thread → Pair
after_wait p (true, t) = record p { thread = t; caller = started }
after_wait p (false, t) = record p { thread = t; caller = asleep }

-- A step of one of the two; `none` where it is not there, fails an assertion, or waits for the end of
-- the other one. The new thread's number is `number`.
unfoldable pub apply : (number : ℕ) → Event → Pair → Option Pair
unfolding after_start after_wait
apply number (starting created) p = elim p.caller [
  | outside ↦ after_start p (start created p.thread)
  | arriving ↦ none
  | asleep ↦ none
  | started ↦ none
  | joined ↦ none
]
apply number waiting p = elim p.caller [
  | outside ↦ none
  | arriving ↦ some (after_wait p (await_tid p.thread))
  | asleep ↦ none
  | started ↦ none
  | joined ↦ none
]
apply number (waking i) p =
    let l = p.thread.latch in
    some (record p { thread = record p.thread { latch = record l { cond = notify i l.cond } } })
apply number (going_on j) p = elim (proceed j p.thread.latch.cond) [
  | none ↦ none
  | some (_, c) ↦
      let l = record p.thread.latch { cond = c } in
      some (after_wait p (await_tid (record p.thread { latch = l })))
]
apply number numbering p = elim p.child [
  | absent ↦ none
  | begun ↦ some (record p { thread = set_tid (pos number) p.thread; child = numbered })
  | numbered ↦ none
  | told ↦ none
  | ended ↦ none
]
apply number telling p = elim p.child [
  | absent ↦ none
  | begun ↦ none
  | numbered ↦ some (record p { thread = tell p.thread; child = told })
  | told ↦ none
  | ended ↦ none
]
apply number ending p = elim p.child [
  | absent ↦ none
  | begun ↦ none
  | numbered ↦ none
  | told ↦ some (record p { child = ended })
  | ended ↦ none
]
apply number joining p = elim p.caller [
  | outside ↦ none
  | arriving ↦ none
  | asleep ↦ none
  | started ↦ elim p.child [
    | absent ↦ none
    | begun ↦ none
    | numbered ↦ none
    | told ↦ none
    | ended ↦ elim (join p.thread) [
      | none ↦ none
      | some t ↦ some (record p { thread = t; caller = joined })
    ]
  ]
  | joined ↦ none
]

unfoldable pub applies : (number : ℕ) → List Event → Pair → Option Pair
applies number [] p = some p
applies number (e ∷ es) p = elim (apply number e p) [ none ↦ none | some p' ↦ applies number es p' ]

-- ===== src/Thread/Tests.antt =====
-- A thread whose start falls asleep before the new thread has its number.
use batonlib.Base.{◌≡◌, refl, true, false, some, List, [], ◌∷◌, arith}
use batonlib.Int.{pos}
use batonlib.Monitor
use batonlib.Monitor.{new_condition, notify_all, proceed}
use batonlib.CountDownLatch
use batonlib.CountDownLatch.{new_latch, countdown}
use batonlib.Thread.{Thread, new_thread, start, await_tid, has_tid, set_tid, tell}
use batonlib.Thread.Steps.{
  told, asleep, started, Pair, Event, starting, waiting, going_on, numbering, telling, fresh,
  after_start, after_wait, apply, applies,
}
use batonlib.Thread.Started.{start-has_tid, start_wakes}

abbrev told_thread : Thread
told_thread = record {
  latch = record { count = pos 0; cond = record { waiting = []; woken = tt ∷ [] } };
  start = true;
  join = false;
  tid = pos 9;
}

abbrev woken : Pair
woken = record { thread = told_thread; child = told; caller = asleep }

abbrev up_to_told : List Event
up_to_told = starting true ∷ waiting ∷ numbering ∷ telling ∷ []

woken_lem : applies 9 up_to_told fresh ≡ some woken
unfolding applies apply fresh new_thread new_latch new_condition start after_start after_wait
    await_tid CountDownLatch.wait Monitor.wait set_tid tell countdown notify_all
woken_lem = refl

start_wakes_example : (p : Pair) × (apply 9 (going_on 0) woken ≡ some p) × (p.caller ≡ started)
start_wakes_example = start_wakes 9 up_to_told woken woken_lem 0 refl refl

-- And one whose start finds the latch open.
abbrev ready : Pair
ready = record {
  thread = record told_thread { latch = record { count = pos 0; cond = new_condition } };
  child = told;
  caller = started;
}

abbrev told_first : List Event
told_first = starting true ∷ numbering ∷ telling ∷ waiting ∷ []

ready_lem : applies 9 told_first fresh ≡ some ready
unfolding applies apply fresh new_thread new_latch new_condition start after_start after_wait
    await_tid CountDownLatch.wait set_tid tell countdown notify_all
ready_lem = refl

start-has_tid_example : (ready.thread.tid ≡ pos 9) × (has_tid ready.thread ≡ true)
start-has_tid_example = start-has_tid 9 told_first ready ready_lem refl (omega arith)

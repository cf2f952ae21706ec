-- ===== src/CountDownLatch/Tests.antt =====
-- A latch for one countdown, with a thread that waits before it.
use batonlib.Base.{◌≡◌, refl, some, List, [], ◌∷◌}
use batonlib.Int.{pos}
use batonlib.Monitor
use batonlib.Monitor.{new_condition, notify_all}
use batonlib.CountDownLatch.{new_latch, wait, countdown}
use batonlib.CountDownLatch.Opened.{
  Event, waiting, counting_down, History, apply, applies, fresh, IsLatch, reached-IsLatch,
}

abbrev wait_and_count : List Event
wait_and_count = waiting ∷ counting_down ∷ []

abbrev opened_latch : History
opened_latch = record {
  latch = record { count = pos 0; cond = record { waiting = []; woken = tt ∷ [] } };
  downs = 1;
  passed = 0;
}

wait_and_count_lem : applies wait_and_count (fresh 1) ≡ some opened_latch
unfolding applies apply wait countdown notify_all new_latch Monitor.wait new_condition
wait_and_count_lem = refl

reached-IsLatch_example : IsLatch 1 opened_latch
reached-IsLatch_example = reached-IsLatch wait_and_count 1 opened_latch wait_and_count_lem

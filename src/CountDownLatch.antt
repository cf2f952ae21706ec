-- ===== src/CountDownLatch.antt =====
-- Batonlib/base/CountDownLatch.cpp: threads that wait until others have counted down. What a thread does
-- with the mutex held is one step. The count stays in the range of an `int`.
pub mod Opened
mod Tests
use batonlib.Base.{ℕ, Bool, true, false, if◌then◌else◌}
use batonlib.Int.{ℤ, pos, ltbℤ, decr, ◌==ℤ◌}
use batonlib.Monitor
use batonlib.Monitor.{Condition, new_condition}

pub record CountDownLatch : Type 0 where
  pub count : ℤ
  pub cond : Condition (Unit {0})

unfoldable pub new_latch : ℤ → CountDownLatch
new_latch count = record { count = count; cond = new_condition }

-- `wait`, from its start or from a wake-up: whether it returns.
unfoldable pub wait : CountDownLatch → Bool × CountDownLatch
wait l =
    if ltbℤ (pos 0) l.count then (false, record l { cond = Monitor.wait tt l.cond }) else (true, l)

unfoldable pub countdown : CountDownLatch → CountDownLatch
countdown l =
    let count = decr l.count in
    if count ==ℤ pos 0
    then record { count = count; cond = Monitor.notify_all l.cond }
    else record l { count = count }

pub get_count : CountDownLatch → ℤ
get_count l = l.count

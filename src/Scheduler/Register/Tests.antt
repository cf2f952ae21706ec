-- ===== src/Scheduler/Register/Tests.antt =====
-- Events registered with the wheel of TimeWheel/Tests.antt: the events 20 to 23 exist, the new one
-- is 24, and item 4 is its timer.
use batonlib.Base.{◌≡◌, refl, true, ◌∈◌, arith, ltb, eq_of_mem}
use batonlib.Int.{pos}
use batonlib.Memory.{Memory, valid}
use batonlib.Memory.Returns.{Returns}
use batonlib.TimeWheel.Ring.{IsWheel}
use batonlib.TimeWheel.Tests.{sample, wheel, held, both, sample-IsWheel, sample-Due, sample-HasRoom}
use batonlib.FdMap
use batonlib.Epoll.Watched.{new_co_epoll}
use batonlib.Scheduler.Round.{HasEvents}
use batonlib.Scheduler.Timeouts.{IsWheel-events}
use batonlib.Scheduler.Register.{register_event}
use batonlib.Scheduler.Register.Watch.{Watches}
use batonlib.Scheduler.Register.Timer.{Registered}
use batonlib.Scheduler.Register.Waits.{at_end, register_timed}

abbrev before : Memory
before = record (sample 0) { events = record (sample 0).events { live = λ a. ltb a 24 } }

before-IsWheel : IsWheel before wheel held
before-IsWheel = IsWheel-events (sample 0) _ wheel held (sample-IsWheel 0)

before-HasEvents : HasEvents before wheel held
unfolding valid
before-HasEvents a (i, h, there) =
    both (λ i. a ∈ held i → valid before.events.live (before.item a) ≡ true)
      (λ k. let e : a ≡ 1 = eq_of_mem a 1 k in rw e refl)
      (λ k. let e : a ≡ 2 = eq_of_mem a 2 k in rw e refl) i h there

register_timed_example :
    Returns
      (register_event wheel new_co_epoll 50 (pos 7) 1 (pos 1) 100 24 4 before)
      (λ (waits, ep') m'.
        (waits ≡ true)
        × Watches (pos 7) 1 24 new_co_epoll ep'
        × Registered before m' wheel (at_end wheel held 4 101) 24 4 50
        × (m'.expire_time 4 ≡ 101))
register_timed_example =
    register_timed before wheel held new_co_epoll 50 (pos 7) 1 100 24 4 before-IsWheel
      (sample-Due 0) before-HasEvents (omega arith) (omega arith) refl 0 refl sample-HasRoom
      (omega arith) (omega arith) (omega arith)

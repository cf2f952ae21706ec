-- ===== src/Scheduler/Whole.antt =====
-- The first half of a round of `scheduler::event_loop`, from the reported events to the links that
-- it runs.
use batonlib.Base.{
  ℕ, ◌+◌, ◌-◌, ◌^◌, ◌<◌, ◌≤◌, ◌≡◌, ◌≢◌, sym, ap, true, some, List, [], ◌∷◌, ◌++◌, ◌∈◌, length,
  arith, length-erase, mem_of_mem-erase,
}
use batonlib.Memory.{Ptr, Memory}
use batonlib.Memory.Returns
use batonlib.Memory.Returns.{Returns}
use batonlib.Link.{IsLink}
use batonlib.TimeWheel.{TimeWheel}
use batonlib.TimeWheel.Ring.{Contents, IsWheel, Due, HasRoom}
use batonlib.TimeWheel.Discard.{without}
use batonlib.TimeWheel.Take.{IsOutside, Enough, advanced}
use batonlib.TimeWheel.Take.Exact.{expired}
use batonlib.TimeWheel.Take.Expired.{InWheel}
use batonlib.Scheduler.{Scheduler, collect_ready, collect_timeouts, collect_round}
use batonlib.Scheduler.Ready.{AllReady, without_all, collect_ready_lem}
use batonlib.Scheduler.Round.{HasEvents, Timed, collect_timeouts_lem}

-- What holds of a wheel's contents holds of fewer.
mem_of_mem-without_all :
    (ts : List Ptr) (q : Contents) (i : ℕ) (a : Ptr) → a ∈ without_all ts q i → a ∈ q i
mem_of_mem-without_all [] q i a h = h
mem_of_mem-without_all (t ∷ ts) q i a h =
    mem_of_mem-erase a t (q i) (mem_of_mem-without_all ts (without t q) i a h)

Enough-without_all :
    (fuel : ℕ) (tw : TimeWheel) (ts : List Ptr) (q : Contents)
    → Enough fuel tw q
    → Enough fuel tw (without_all ts q)
Enough-without_all fuel tw [] q enough = enough
Enough-without_all fuel tw (t ∷ ts) q enough =
    Enough-without_all fuel tw ts (without t q)
      (λ j h. omega (arith, enough j h, length-erase t (q j)))

Due-without_all :
    (e : Ptr → ℕ) (tw : TimeWheel) (q : Contents) (ts : List Ptr)
    → Due e tw q
    → Due e tw (without_all ts q)
Due-without_all e tw q ts due i a h there = due i a h (mem_of_mem-without_all ts q i a there)

InWheel-without_all :
    (tw : TimeWheel) (q : Contents) (ts : List Ptr) (a : Ptr)
    → InWheel tw (without_all ts q) a
    → InWheel tw q a
InWheel-without_all tw q ts a (i, h, there) = (i, h, mem_of_mem-without_all ts q i a there)

Timed-before :
    {m m1 m' : Memory} {tw tw' : TimeWheel} {q : Contents} {now : ℕ} {active timeout : Ptr}
    {rs : List Ptr}
    → m1.expire_time ≡ m.expire_time
    → m1.item ≡ m.item
    → m1.events ≡ m.events
    → Timed m1 m' tw tw' q now active timeout rs
    → Timed m m' tw tw' q now active timeout rs
Timed-before {m} {m1} {m'} time item events t = record {
  expires = rw time at t.expires;
  link = t.link;
  empty = t.empty;
  wheel = t.wheel;
  due = t.due;
  marked = λ a h. rw (← item) (t.marked a h);
  unmarked = λ e none. rw (← events) (t.unmarked e (λ a h. rw item (none a h)));
}

-- The first half of a round runs to its end and does not return from the loop: the active link
-- holds what it held, then the items of the reported events in their order, then the expired ones
-- of the others in the order of their deadlines; the events of the latter are marked as timed out
-- and no other event's mark changes, and the wheel holds what is left at the new time. The
-- conditions are those of the two parts: every reported item occurs once, on the wheel with a
-- deadline or on no link without one, the wheel is well formed and counts milliseconds with room
-- in its index, its items have their events, the two links are different and none of the wheel's,
-- the timeout link is empty, the clock does not run backwards or leap, and the fuel exceeds the
-- lengths of the links that are walked.
pub collect_round_lem :
    (fuel : ℕ) (m : Memory) (sch : Scheduler) (q : Contents) (now : ℕ) (rs es ts : List Ptr)
    → sch.tw.isms ≡ true
    → HasRoom sch.tw
    → IsWheel m sch.tw q
    → Due m.expire_time sch.tw q
    → HasEvents m sch.tw q
    → AllReady m sch.tw q es ts
    → sch.active_link ≢ sch.timeout_link
    → IsOutside sch.tw sch.active_link
    → IsOutside sch.tw sch.timeout_link
    → IsLink m sch.active_link rs
    → IsLink m sch.timeout_link []
    → Enough fuel sch.tw q
    → length (expired sch.tw (without_all ts q) now) < fuel
    → sch.tw.w_start ≤ now
    → now < sch.tw.w_start + (2 ^ 31 - 1)
    → Returns (collect_round fuel sch now es m) (λ result m'.
      (result ≡ some (record sch { tw = advanced sch.tw now }))
      × Timed m m' sch.tw
          (advanced sch.tw now)
          (without_all ts q)
          now
          sch.active_link
          sch.timeout_link
          (rs ++ ts))
unfolding collect_round
collect_round_lem fuel m sch q now rs es ts ms room is due events ready ne out out' link link'
      enough fits later soon =
    Returns.bind (collect_ready sch.active_link es m) _ _ _
      (collect_ready_lem es ts m sch.tw q sch.active_link rs link out is ready)
      (λ b m1 (done, c). rw done (
        Returns.bind (collect_timeouts fuel sch now m1) _ _ _
          (collect_timeouts_lem fuel m1 sch (without_all ts q) now (rs ++ ts) ms room c.wheel
            (rw c.expire_time (Due-without_all m.expire_time sch.tw q ts due))
            (λ a h. rw (c.events, c.item) (events a (InWheel-without_all sch.tw q ts a h))) ne out
            out' c.link (c.empty_links sch.timeout_link (λ e. ne (sym e)) out' link')
            (Enough-without_all fuel sch.tw ts q enough) fits later soon)
          (λ sch' m2 (e, t). (ap some e, Timed-before c.expire_time c.item c.events (rw e at t)))))

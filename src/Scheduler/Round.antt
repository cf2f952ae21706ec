-- ===== src/Scheduler/Round.antt =====
-- The second part of a round of `scheduler::event_loop`: the wheel's expired items are taken,
-- marked, and moved behind the active ones.
use batonlib.Base.{
  ℕ, ◌+◌, ◌-◌, ◌^◌, ◌<◌, ◌≤◌, ◌≡◌, refl, ◌≢◌, ◌∙◌, true, List, [], ◌++◌, ◌∈◌, length,
}
use batonlib.Memory.{Ptr, null, Memory, valid}
use batonlib.Memory.Returns
use batonlib.Memory.Returns.{Returns}
use batonlib.Link.{IsLink}
use batonlib.TimeWheel.{TimeWheel, take_all_timeout}
use batonlib.TimeWheel.Ring.{Contents, IsWheel, Due, HasRoom}
use batonlib.TimeWheel.Take.{
  IsOutside, Enough, advanced, IsWheel-advanced, Due-advanced, take_all_timeout_moves,
}
use batonlib.TimeWheel.Take.Exact.{expired, pending, Expires, expired-Expires}
use batonlib.TimeWheel.Take.Expired.{InWheel}
use batonlib.Scheduler.{Scheduler, join_timeout, collect_timeouts}
use batonlib.Scheduler.Join.{join_timeout_lem}
use batonlib.Scheduler.Timeouts.{
  timed_out, timed_out_in, timed_out_other, IsLink-events, IsWheel-events, mark_timeouts_lem,
}

-- The events of the items on the wheel are allocated.
abbrev pub HasEvents : Memory → TimeWheel → Contents → Type 0
HasEvents m tw q = (a : Ptr) → InWheel tw q a → valid m.events.live (m.item a) ≡ true

-- What the second part of a round leaves behind it.
pub record Timed (m m' : Memory) (tw tw' : TimeWheel) (q : Contents) (now : ℕ)
    (active timeout : Ptr) (rs : List Ptr) : Type 0 where
  pub expires : Expires m.expire_time tw q now (expired tw q now) (pending tw q now)
  pub link : IsLink m' active (rs ++ expired tw q now)
  pub empty : IsLink m' timeout []
  pub wheel : IsWheel m' tw' (pending tw q now)
  pub due : Due m'.expire_time tw' (pending tw q now)
  pub marked : (a : Ptr) → a ∈ expired tw q now → m'.events.is_timeout (m.item a) ≡ true
  pub unmarked :
      (e : Ptr)
      → ((a : Ptr) → a ∈ expired tw q now → e ≢ m.item a)
      → m'.events.is_timeout e ≡ m.events.is_timeout e

-- At a time not before the wheel's, the second part of a round runs to its end: the items whose
-- deadline has passed move from the wheel behind those of the active link, in the order of their
-- deadlines, their events are marked as timed out and no other event's mark changes, the timeout
-- link is empty again, and the wheel holds the other items at the new time. The wheel is well
-- formed and counts milliseconds with room in its index, its items have their events, the two
-- links are different and none of the wheel's, the timeout link is empty, the time since the last
-- call fits in an int, and the fuel exceeds each slot's length and the number of expired items.
pub collect_timeouts_lem :
    (fuel : ℕ) (m : Memory) (sch : Scheduler) (q : Contents) (now : ℕ) (rs : List Ptr)
    → sch.tw.isms ≡ true
    → HasRoom sch.tw
    → IsWheel m sch.tw q
    → Due m.expire_time sch.tw q
    → HasEvents m sch.tw q
    → sch.active_link ≢ sch.timeout_link
    → IsOutside sch.tw sch.active_link
    → IsOutside sch.tw sch.timeout_link
    → IsLink m sch.active_link rs
    → IsLink m sch.timeout_link []
    → Enough fuel sch.tw q
    → length (expired sch.tw q now) < fuel
    → sch.tw.w_start ≤ now
    → now < sch.tw.w_start + (2 ^ 31 - 1)
    → Returns (collect_timeouts fuel sch now m) (λ sch' m'.
      (sch' ≡ record sch { tw = advanced sch.tw now })
      × Timed m m' sch.tw sch'.tw q now sch.active_link sch.timeout_link rs)
unfolding collect_timeouts
collect_timeouts_lem fuel m sch q now rs ms room is due events ne out out' link link' enough fits
      later soon =
    let tw = sch.tw in
    let xs = expired tw q now in
    let x = expired-Expires m.expire_time tw q now room is.positive due later in
    Returns.bind (take_all_timeout fuel tw now sch.timeout_link m) _ _ _
      (take_all_timeout_moves fuel m tw q now sch.timeout_link [] ms is link' out' enough later
        soon)
      (λ tw' m1 (e, t).
        let m2 = record m1 { events = timed_out m1.item xs m1.events } in
        let live : (a : Ptr) → a ∈ xs → valid m1.events.live (m1.item a) ≡ true =
          λ a h. rw (t.events, t.item) (events a ((x.exactly a).0 h).1) in
        let link2 =
          IsLink-events m1 m2.events sch.active_link rs (t.links sch.active_link rs ne out link) in
        rw e (
          simp
            (
              t.link.live,
              t.link.head,
              mark_timeouts_lem fuel m1 sch.timeout_link null xs fits t.link.chain live,
            )
            (Returns.bind (join_timeout fuel sch.active_link sch.timeout_link m2) _ _ _
              (join_timeout_lem fuel (IsWheel-events m1 m2.events tw _ t.wheel) ne out out' link2
                (IsLink-events m1 m2.events sch.timeout_link xs t.link) fits)
              (λ _ m3 ((l, l', same), w). (
                refl,
                record {
                  expires = x;
                  link = l;
                  empty = l';
                  wheel = IsWheel-advanced m3 tw _ now w;
                  due =
                      rw (same.expire_time ∙ t.expire_time)
                        (Due-advanced m.expire_time tw q now xs _ room later due x);
                  marked =
                      λ a h. rw (same.events, ← t.item) (timed_out_in m1.item xs m1.events a h);
                  unmarked = λ e none.
                      rw (same.events, ← t.events)
                        (timed_out_other m1.item xs m1.events e (rw t.item none));
                },
              )))))

-- ===== src/Thread/Started.antt =====
-- When `start` returns, the new thread has given its number.
use batonlib.Base.{
  ℕ, ◌<◌, ◌≡◌, refl, ap, inl, inr, true, false, none, some, Option-cases, unwrap, List, [], ◌∷◌,
  arith,
}
use batonlib.Int.{pos, ltbℤ}
use batonlib.Monitor.{new_condition}
use batonlib.Monitor.Counts.{proceed-counts}
use batonlib.CountDownLatch
use batonlib.CountDownLatch.{CountDownLatch, new_latch, countdown}
use batonlib.Thread.{Thread, new_thread, await_tid, has_tid}
use batonlib.Thread.Steps.{
  asleep, started, Pair, Event, going_on, fresh, after_wait, apply, applies,
}
use batonlib.Thread.Sound.{has_told, is_behind, sleeps, IsStarted, Good, told-has_number}
use batonlib.Thread.Kept.{apply-Good}

module _ (number : ℕ) where
  applies-IsStarted :
      (es : List Event) (p p' : Pair)
      → IsStarted number p
      → applies number es p ≡ some p'
      → IsStarted number p'
  unfolding applies Good
  applies-IsStarted [] p p' s r = rw (ap (unwrap p) r) at s
  applies-IsStarted (e ∷ es) p p' s r = elim (Option-cases (apply number e p)) [
    | inl n ↦ let bad : none ≡ some p' = rw (applies, n) at r in absurd (cc)
    | inr (p1, there) ↦
        let s1 : IsStarted number p1 = rw there at (apply-Good number e p s) in
        applies-IsStarted es p1 p' s1 (rw (applies, there) at r)
  ]

  fresh-IsStarted : IsStarted number fresh
  unfolding fresh new_thread new_latch new_condition
  fresh-IsStarted = record {
    there = refl;
    count = refl;
    tid = λ h. absurd (cc);
    behind = λ h. absurd (cc);
    waiters = omega arith;
    awake = λ h. absurd (cc);
  }

  module _ (es : List Event) (p : Pair) (reached : applies number es fresh ≡ some p) where
    -- In whatever order the two threads go on and however they are woken: when `start` has returned
    -- behind its wait, `tid_` is the new thread's number, and when that is positive, the assertion holds.
    pub start-has_tid :
        is_behind p.caller ≡ true
        → 0 < number
        → (p.thread.tid ≡ pos number) × (has_tid p.thread ≡ true)
    unfolding has_tid
    start-has_tid behind positive =
        let s = applies-IsStarted es fresh p fresh-IsStarted reached in
        let e : p.thread.tid ≡ pos number = s.tid (told-has_number p.child (s.behind behind)) in
        (e, rw e (ground arith))

    -- In whatever order the two have gone on: when the new thread has counted the latch down, one that
    -- sleeps in `start` has been woken, and returns as soon as it goes on.
    pub start_wakes :
        (j : ℕ)
        → p.caller ≡ asleep
        → has_told p.child ≡ true
        → (p' : Pair) × (apply number (going_on j) p ≡ some p') × (p'.caller ≡ started)
    unfolding apply after_wait await_tid CountDownLatch.wait
    start_wakes j sleeping past =
        let s = applies-IsStarted es fresh p fresh-IsStarted reached in
        let one : sleeps p.caller ≡ 1 = rw sleeping refl in
        let none_left : p.thread.latch.count ≡ pos 0 = rw past at s.count in
        elim (proceed-counts j p.thread.latch.cond) [
          | inl (z, e) ↦ absurd (omega (arith, z, s.waiters, s.awake past, one))
          | inr (u, c, e, same, less) ↦
              let t : Thread = record p.thread { latch = record p.thread.latch { cond = c } } in
              let test : ltbℤ (pos 0) t.latch.count ≡ false = ap (λ n. ltbℤ (pos 0) n) none_left in
              let stays : await_tid t ≡ (true, t) =
                rw (await_tid, CountDownLatch.wait, test) refl in
              (after_wait p (true, t), rw (apply, e) (ap (λ r. some (after_wait p r)) stays), refl)
        ]

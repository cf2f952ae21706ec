-- ===== src/Thread/Calls.antt =====
-- The steps of the thread that starts another one keep to what holds of the two.
use batonlib.Base.{ℕ, ◌+◌, ◌≡◌, refl, ap, inl, inr, Bool, true, false, Bool-cases, length, arith}
use batonlib.Int.{pos, ltbℤ}
use batonlib.Monitor.Counts.{sleepers, risers, notify-counts, wait-counts, proceed-counts}
use batonlib.CountDownLatch
use batonlib.CountDownLatch.{CountDownLatch, new_latch, countdown}
use batonlib.Thread.{Thread, start, await_tid, join}
use batonlib.Thread.Steps.{
  Child, absent, begun, numbered, told, ended, Caller, outside, arriving, asleep, started, joined,
  Pair, starting, waiting, waking, going_on, joining, after_start, after_wait, apply,
}
use batonlib.Thread.Sound.{is_there, has_number, has_told, count_of, sleeps_le, IsStarted, Good}

module _ (number : ℕ) where
  pub starting-Good :
      (created : Bool) (t : Thread) (c : Child) (w : Caller)
      → IsStarted number (record { thread = t; child = c; caller = w })
      → Good number (apply number (starting created) (record { thread = t; child = c; caller = w }))
  unfolding Good apply start
  starting-Good created t c arriving s = tt
  starting-Good created t c asleep s = tt
  starting-Good created t c started s = tt
  starting-Good created t c joined s = tt
  starting-Good created t begun outside s = rw (start, s.there, after_start) tt
  starting-Good created t numbered outside s = rw (start, s.there, after_start) tt
  starting-Good created t told outside s = rw (start, s.there, after_start) tt
  starting-Good created t ended outside s = rw (start, s.there, after_start) tt
  starting-Good true t absent outside s =
      rw (start, s.there, after_start)
        (record {
          there = refl;
          count = s.count;
          tid = λ h. absurd (cc);
          behind = λ h. absurd (cc);
          waiters = s.waiters;
          awake = λ h. absurd (cc);
        })
  starting-Good false t absent outside s =
      rw (start, s.there, after_start)
        (record {
          there = refl;
          count = s.count;
          tid = s.tid;
          behind = s.behind;
          waiters = s.waiters;
          awake = s.awake;
        })

  -- A wait, from where nobody else waits.
  await-IsStarted :
      (t : Thread) (c : Child) (w : Caller)
      → t.start ≡ is_there c
      → t.latch.count ≡ pos (count_of c)
      → (has_number c ≡ true → t.tid ≡ pos number)
      → sleepers t.latch.cond + risers t.latch.cond ≡ 0
      → IsStarted number (after_wait (record { thread = t; child = c; caller = w }) (await_tid t))
  unfolding after_wait await_tid CountDownLatch.wait
  await-IsStarted t c w there count tid idle = elim (Bool-cases (has_told c)) [
    | inl done ↦
        let none_left : t.latch.count ≡ pos 0 = rw done at count in
        let test : ltbℤ (pos 0) t.latch.count ≡ false = ap (λ n. ltbℤ (pos 0) n) none_left in
        rw (await_tid, CountDownLatch.wait, test)
          (record {
            there = there;
            count = count;
            tid = tid;
            behind = λ h. done;
            waiters = idle;
            awake = λ h. omega (arith, idle);
          })
    | inr not_yet ↦
        let one_left : t.latch.count ≡ pos 1 = rw not_yet at count in
        let (more, same) = wait-counts tt t.latch.cond in
        let test : ltbℤ (pos 0) t.latch.count ≡ true = ap (λ n. ltbℤ (pos 0) n) one_left in
        rw (await_tid, CountDownLatch.wait, test)
          (record {
            there = there;
            count = count;
            tid = tid;
            behind = λ h. absurd (cc);
            waiters = omega (arith, more, same, idle);
            awake = λ h. absurd (cc);
          })
  ]

  pub waiting-Good :
      (t : Thread) (c : Child) (w : Caller)
      → IsStarted number (record { thread = t; child = c; caller = w })
      → Good number (apply number waiting (record { thread = t; child = c; caller = w }))
  unfolding Good apply
  waiting-Good t c arriving s = await-IsStarted t c arriving s.there s.count s.tid s.waiters
  waiting-Good t c outside s = tt
  waiting-Good t c asleep s = tt
  waiting-Good t c started s = tt
  waiting-Good t c joined s = tt

  pub going_on-Good :
      (j : ℕ) (p : Pair) → IsStarted number p → Good number (apply number (going_on j) p)
  unfolding Good apply
  going_on-Good j p s = elim (proceed-counts j p.thread.latch.cond) [
    | inl (z, e) ↦ rw (apply, e) tt
    | inr (u, c, e, same, less) ↦
        let t : Thread = record p.thread { latch = record p.thread.latch { cond = c } } in
        let idle : sleepers c + risers c ≡ 0 =
          omega (arith, less, ap length same, s.waiters, sleeps_le p.caller) in
        rw (apply, e) (await-IsStarted t p.child p.caller s.there s.count s.tid idle)
  ]

  pub waking-Good :
      (i : ℕ) (p : Pair) → IsStarted number p → Good number (apply number (waking i) p)
  unfolding Good apply
  waking-Good i p s = elim (notify-counts i p.thread.latch.cond) [
    | inl (z, same) ↦ record {
      there = s.there;
      count = s.count;
      tid = s.tid;
      behind = s.behind;
      waiters = rw same s.waiters;
      awake = rw same s.awake;
    }
    | inr (less, more) ↦ record {
      there = s.there;
      count = s.count;
      tid = s.tid;
      behind = s.behind;
      waiters = omega (arith, less, more, s.waiters);
      awake = λ h. omega (arith, s.awake h, less);
    }
  ]

  pub joining-Good :
      (t : Thread) (c : Child) (w : Caller)
      → IsStarted number (record { thread = t; child = c; caller = w })
      → Good number (apply number joining (record { thread = t; child = c; caller = w }))
  unfolding Good apply join
  joining-Good t c outside s = tt
  joining-Good t c arriving s = tt
  joining-Good t c asleep s = tt
  joining-Good t c joined s = tt
  joining-Good t absent started s = tt
  joining-Good t begun started s = tt
  joining-Good t numbered started s = tt
  joining-Good t told started s = tt
  joining-Good t ended started s = elim (Bool-cases t.join) [
    | inl twice ↦ rw (join, s.there, twice) tt
    | inr once ↦
        rw (join, s.there, once)
          (record {
            there = refl;
            count = s.count;
            tid = s.tid;
            behind = λ h. refl;
            waiters = s.waiters;
            awake = s.awake;
          })
  ]

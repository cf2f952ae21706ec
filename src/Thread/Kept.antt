-- ===== src/Thread/Kept.antt =====
-- So do those of the new thread, and any step of the two.
use batonlib.Base.{ℕ, ◌≡◌, refl, arith}
use batonlib.Int.{pos}
use batonlib.Monitor.Counts.{notify_all-counts}
use batonlib.CountDownLatch.{countdown}
use batonlib.Thread.{Thread, set_tid, tell}
use batonlib.Thread.Steps.{
  Child, absent, begun, numbered, told, ended, Caller, Pair, Event, starting, waiting, waking,
  going_on, numbering, telling, ending, joining, apply,
}
use batonlib.Thread.Sound.{IsStarted, Good}
use batonlib.Thread.Calls.{starting-Good, waiting-Good, going_on-Good, waking-Good, joining-Good}

module _ (number : ℕ) where
  numbering-Good :
      (t : Thread) (c : Child) (w : Caller)
      → IsStarted number (record { thread = t; child = c; caller = w })
      → Good number (apply number numbering (record { thread = t; child = c; caller = w }))
  unfolding Good apply set_tid
  numbering-Good t absent w s = tt
  numbering-Good t numbered w s = tt
  numbering-Good t told w s = tt
  numbering-Good t ended w s = tt
  numbering-Good t begun w s = record {
    there = s.there;
    count = s.count;
    tid = λ h. refl;
    behind = s.behind;
    waiters = s.waiters;
    awake = s.awake;
  }

  telling-Good :
      (t : Thread) (c : Child) (w : Caller)
      → IsStarted number (record { thread = t; child = c; caller = w })
      → Good number (apply number telling (record { thread = t; child = c; caller = w }))
  unfolding Good apply tell countdown
  telling-Good t absent w s = tt
  telling-Good t begun w s = tt
  telling-Good t told w s = tt
  telling-Good t ended w s = tt
  telling-Good t numbered w s =
      let (asleep_now, up) = notify_all-counts t.latch.cond in
      let one_left : t.latch.count ≡ pos 1 = s.count in
      rw (tell, countdown, one_left)
        (record {
          there = s.there;
          count = refl;
          tid = λ h. s.tid refl;
          behind = λ h. refl;
          waiters = omega (arith, asleep_now, up, s.waiters);
          awake = λ h. asleep_now;
        })

  ending-Good :
      (t : Thread) (c : Child) (w : Caller)
      → IsStarted number (record { thread = t; child = c; caller = w })
      → Good number (apply number ending (record { thread = t; child = c; caller = w }))
  unfolding Good apply
  ending-Good t absent w s = tt
  ending-Good t begun w s = tt
  ending-Good t numbered w s = tt
  ending-Good t ended w s = tt
  ending-Good t told w s = record {
    there = s.there;
    count = s.count;
    tid = s.tid;
    behind = s.behind;
    waiters = s.waiters;
    awake = s.awake;
  }

  pub apply-Good : (e : Event) (p : Pair) → IsStarted number p → Good number (apply number e p)
  apply-Good (starting created) p s = starting-Good number created p.thread p.child p.caller s
  apply-Good waiting p s = waiting-Good number p.thread p.child p.caller s
  apply-Good (waking i) p s = waking-Good number i p s
  apply-Good (going_on j) p s = going_on-Good number j p s
  apply-Good numbering p s = numbering-Good p.thread p.child p.caller s
  apply-Good telling p s = telling-Good p.thread p.child p.caller s
  apply-Good ending p s = ending-Good p.thread p.child p.caller s
  apply-Good joining p s = joining-Good number p.thread p.child p.caller s

-- ===== src/SysCall/Connect.antt =====
-- `co_connect`: the waits for a connection that is in progress.
use batonlib.Base.{ℕ, zero, suc, ◌<◌, ◌≡◌, refl, Bool, true, false, ◌&&◌, arith}
use batonlib.Int.{ℤ, pos, ltbℤ, ◌==ℤ◌}
use batonlib.Linux.{Linux}
use batonlib.SysCall.{time_out, to_connect, is_true, connect_waits, connect_result, co_connect}

module _ (l : Linux) (fd : ℤ) where
  -- The world behind some waits, and whether the next one runs out of time.
  abbrev pub waited : ℕ → l.World → l.World
  waited zero w = w
  waited (suc k) w = waited k (l.co_register fd to_connect (pos 25000) w).1

  abbrev pub is_late : ℕ → l.World → Bool
  is_late k w = is_true (l.co_register fd to_connect (pos 25000) (waited k w)).0

  late_waits :
      (turns : ℕ) (timeout : Bool) (w : l.World)
      → ((k : ℕ) → k < turns → is_late k w ≡ true)
      → 0 < turns
      → connect_waits l turns fd timeout w ≡ (true, waited turns w)
  unfolding connect_waits
  late_waits zero timeout w late some_turn = absurd (omega arith)
  late_waits (suc zero) timeout w late some_turn = rw (late 0 (omega arith)) refl
  late_waits (suc (suc turns)) timeout w late some_turn =
      rw (late 0 (omega arith))
        (late_waits (suc turns) true _ (λ k h. late (suc k) (omega arith)) (omega arith))

  ready_waits :
      (turns k : ℕ) (timeout : Bool) (w : l.World)
      → k < turns
      → ((j : ℕ) → j < k → is_late j w ≡ true)
      → is_late k w ≡ false
      → connect_waits l turns fd timeout w ≡ (false, waited (suc k) w)
  unfolding connect_waits
  ready_waits zero k timeout w h late ready = absurd (omega arith)
  ready_waits (suc turns) zero timeout w h late ready = rw ready refl
  ready_waits (suc turns) (suc k) timeout w h late ready =
      rw (late 0 (omega arith))
        (ready_waits turns k true _ (omega arith) (λ j g. late (suc j) (omega arith)) ready)

  -- `connect` has failed with EINPROGRESS.
  abbrev pub IsGoing : (in_progress : ℤ) → ℤ × l.World → Type 0
  IsGoing in_progress (ret, w) = (ltbℤ ret (pos 0) && (l.errno w ==ℤ in_progress)) ≡ true

  module _ (in_progress timed_out : ℤ) (w : l.World)
      (going : IsGoing in_progress (l.connect fd w)) where
    -- When `connect` is in progress and three waits, one after the other, run out of time,
    -- co_connect returns TIME_OUT and sets errno to ETIMEDOUT.
    pub co_connect_late :
        ((k : ℕ) → k < 3 → is_late k (l.connect fd w).1 ≡ true)
        → co_connect l in_progress timed_out fd w
          ≡ (time_out, l.set_errno timed_out (waited 3 (l.connect fd w).1))
    unfolding co_connect
    co_connect_late late = rw (co_connect, going, late_waits 3 false _ late (omega arith)) refl

    -- When `connect` is in progress and one of three waits does not run out of time, co_connect
    -- returns, after the first such wait, what the socket's error says.
    pub co_connect_ready :
        (k : ℕ)
        → k < 3
        → ((j : ℕ) → j < k → is_late j (l.connect fd w).1 ≡ true)
        → is_late k (l.connect fd w).1 ≡ false
        → co_connect l in_progress timed_out fd w
          ≡ connect_result l fd (waited (suc k) (l.connect fd w).1)
    unfolding co_connect
    co_connect_ready k h late ready =
        rw (co_connect, going, ready_waits 3 k false _ h late ready) refl

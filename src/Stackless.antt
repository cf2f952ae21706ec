-- ===== src/Stackless.antt =====
-- Batonlib/coroutine_stackless.h: coroutines without a stack. CO_REENTER and YEILD make a `switch` on
-- `counter_` of the function's body; between two of their labels stands a segment of the body, which
-- works on the caller's data, since the function's own variables do not last.
pub mod Steps
mod Tests
use batonlib.Base.{
  ℕ, zero, suc, Bool, true, false, Option, none, some, List, [], ◌∷◌, if◌then◌else◌,
}
use batonlib.Int.{ℤ, pos, negsuc, ◌==ℤ◌}

-- A segment with the label before it: 0 is that of CO_REENTER, and the others are those that
-- `__COUNTER__ + 1` gives.
pub record Segment (W : Type 0) : Type 0 where
  pub label : ℕ
  pub code : W → W

-- A coroutine with its function's body.
pub record CoroutineStackless (W : Type 0) : Type 0 where
  pub counter : ℤ
  pub func : List (Segment W)
  pub arg : W

module _ {W : Type 0} where
  -- `flag` when the segment before these has run.
  pub next_flag : ℤ → List (Segment W) → ℤ
  next_flag flag [] = flag
  next_flag flag (s ∷ rest) = pos s.label

  -- The `switch`, from its first label on. Without a label for it, `flag` stays.
  pub switch : List (Segment W) → ℤ → W → W × ℤ
  unfolding next_flag
  switch [] flag w = (w, flag)
  switch (s ∷ rest) flag w =
      let later = switch rest flag w in
      if flag ==ℤ pos s.label then (s.code w, next_flag flag rest) else later

  -- The label -1 leaves at once.
  pub reenter : List (Segment W) → ℤ → W → W × ℤ
  unfolding switch
  reenter body flag w = if flag ==ℤ negsuc 0 then (w, negsuc 0) else switch body flag w

  pub new_coroutine_stackless : List (Segment W) → W → CoroutineStackless W
  new_coroutine_stackless func arg = record { counter = pos 0; func = func; arg = arg }

  pub resume : CoroutineStackless W → CoroutineStackless W
  unfolding reenter
  resume co =
      let (arg, counter) = reenter co.func co.counter co.arg in
      record co { counter = counter; arg = arg }

  pub resumes : ℕ → CoroutineStackless W → CoroutineStackless W
  unfolding resume
  resumes zero co = co
  resumes (suc n) co = resumes n (resume co)

-- ===== src/Monitor.antt =====
-- The threads that wait in the monitors of Batonlib/base: a `Condition` (Batonlib/base/Condition.cpp)
-- by those who wait for it and those who have been woken and still have to take the mutex. Each
-- comes with what its call holds. Which of them wakes or goes on first is left open by pthread, so
-- the choice is an argument. `pthread_cond_wait` may also return with no signal, as `notify` does. The
-- assertion of `Wait`, that the flag of the mutex is set, is `may_wait` of Mutex.antt.
pub mod Counts
use batonlib.Base.{ℕ, zero, suc, Option, none, some, List, [], ◌∷◌, ◌++◌}

pub record Condition (A : Type 0) : Type 0 where
  pub waiting : List A
  pub woken : List A

module _ {A : Type 0} where
  unfoldable pub new_condition : Condition A
  new_condition = record { waiting = []; woken = [] }

  -- One of a list, and the others; the last one where there are not so many.
  pub pick_out : ℕ → List A → Option (A × List A)
  pick_out i [] = none
  pick_out i (x ∷ []) = some (x, [])
  pick_out zero (x ∷ y ∷ xs) = some (x, y ∷ xs)
  pick_out (suc i) (x ∷ y ∷ xs) = elim (pick_out i (y ∷ xs)) [
    | none ↦ none
    | some (z, rest) ↦ some (z, x ∷ rest)
  ]

  -- `Wait`, up to the release of the mutex.
  unfoldable pub wait : A → Condition A → Condition A
  wait a c = record c { waiting = c.waiting ++ a ∷ [] }

  -- `Notify`
  unfoldable pub notify : ℕ → Condition A → Condition A
  unfolding pick_out
  notify i c = elim (pick_out i c.waiting) [
    | none ↦ c
    | some (a, rest) ↦ record { waiting = rest; woken = c.woken ++ a ∷ [] }
  ]

  -- `NotifyAll`
  unfoldable pub notify_all : Condition A → Condition A
  notify_all c = record { waiting = []; woken = c.woken ++ c.waiting }

  -- A woken thread has the mutex again.
  unfoldable pub proceed : ℕ → Condition A → Option (A × Condition A)
  unfolding pick_out
  proceed i c = elim (pick_out i c.woken) [
    | none ↦ none
    | some (a, rest) ↦ some (a, record c { woken = rest })
  ]

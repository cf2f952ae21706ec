-- ===== src/Mutex.antt =====
-- Batonlib/base/Mutex.cpp: a pthread mutex with a flag beside it. `none` is a call that does not
-- return.
pub mod Threads
pub mod Tests
use batonlib.Base.{Bool, true, false, Option, none, some}
use batonlib.Stdio.{Pthread}

-- `held` is the state of `mutex_`, and `is_lock` is `isLock_`.
pub record Mutex : Type 0 where
  pub held : Bool
  pub is_lock : Bool

unfoldable pub new_mutex : Mutex
new_mutex = record { held = false; is_lock = false }

-- What `Lock` does behind `pthread_mutex_lock`, and `UnLock` behind `pthread_mutex_unlock`.
abbrev pub raise : Mutex → Mutex
raise m = record m { is_lock = true }

abbrev pub lower : Mutex → Mutex
lower m = record m { is_lock = false }

module _ (p : Pthread) where
  abbrev pub acquire : Mutex → Option Mutex
  acquire m = elim (p.mutex_lock m.held) [
    | none ↦ none
    | some held ↦ some (record m { held = held })
  ]

  abbrev pub release : Mutex → Mutex
  release m = record m { held = p.mutex_unlock m.held }

  unfoldable pub lock : Mutex → Option Mutex
  lock m = elim (acquire m) [ none ↦ none | some m' ↦ some (raise m') ]

  unfoldable pub unlock : Mutex → Mutex
  unlock m = lower (release m)

-- The assertion of `Condition::Wait`.
abbrev pub may_wait : Mutex → Bool
may_wait m = m.is_lock

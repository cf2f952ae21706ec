-- ===== src/Mutex/Threads.antt =====
-- Threads that lock and unlock a mutex, in any order of their calls of pthread and of their writes to
-- the flag.
use batonlib.Base.{
  ℕ-cases, ap, unwrap, Option-cases, ℕ, zero, suc, ◌+◌, ◌<◌, ◌≡◌, refl, ◌⊎◌, inl, inr, true, false,
  Option, none, some, List, [], ◌∷◌, arith,
}
use batonlib.Stdio.{Pthread}
use batonlib.Mutex.{Mutex, new_mutex, raise, lower, acquire, release, may_wait}

-- How many threads are between the two halves of `Lock`, behind it, and between those of `UnLock`.
pub record Threads : Type 0 where
  pub mutex : Mutex
  pub locking : ℕ
  pub inside : ℕ
  pub unlocking : ℕ

unfoldable pub fresh : Threads
fresh = record { mutex = new_mutex; locking = 0; inside = 0; unlocking = 0 }

pub data Event : Type 0 where
  acquiring : Event
  raising : Event
  releasing : Event
  lowering : Event

-- Nobody holds a free mutex, and one thread holds one that is not.
pub Holds : Threads → Type 0
Holds t =
    ((t.mutex.held ≡ false) × (t.locking + t.inside ≡ 0))
    ⊎ ((t.mutex.held ≡ true) × (t.locking + t.inside ≡ 1))

module _ (p : Pthread) where
  -- `none` where no thread can do so.
  unfoldable pub apply : Event → Threads → Option Threads
  apply acquiring t = elim (acquire p t.mutex) [
    | none ↦ none
    | some m ↦ some (record t { mutex = m; locking = suc t.locking })
  ]
  apply raising t = elim t.locking [
    | zero ↦ none
    | suc n ↦ some (record t { mutex = raise t.mutex; locking = n; inside = suc t.inside })
  ]
  apply releasing t = elim t.inside [
    | zero ↦ none
    | suc n ↦ some (record t { mutex = release p t.mutex; inside = n; unlocking = suc t.unlocking })
  ]
  apply lowering t = elim t.unlocking [
    | zero ↦ none
    | suc n ↦ some (record t { mutex = lower t.mutex; unlocking = n })
  ]

  unfoldable pub applies : List Event → Threads → Option Threads
  applies [] t = some t
  applies (e ∷ es) t = elim (apply e t) [ none ↦ none | some t' ↦ applies es t' ]

  Stays : Option Threads → Type 0
  Stays none = Unit
  Stays (some t) = Holds t

  apply-Stays : (e : Event) (t : Threads) → Holds t → Stays (apply e t)
  unfolding Stays Holds apply
  apply-Stays acquiring t (inl (free, z)) =
      rw (apply, free, p.lock_free) (inr (refl, omega (arith, z)))
  apply-Stays acquiring t (inr (held, one)) = rw (apply, held, p.lock_held) tt
  apply-Stays raising t h = elim (ℕ-cases t.locking) [
    | inl z ↦ rw z tt
    | inr (n, e) ↦ rw e (ground (arith, e, h))
  ]
  apply-Stays releasing t h = elim (ℕ-cases t.inside) [
    | inl z ↦ rw z tt
    | inr (n, e) ↦ elim h [
      | inl (free, z) ↦ absurd (omega (arith, z, e))
      | inr (held, one) ↦ rw (e, held, p.unlock_held) (inl (refl, omega (arith, one, e)))
    ]
  ]
  apply-Stays lowering t h = elim (ℕ-cases t.unlocking) [ inl z ↦ rw z tt | inr (n, e) ↦ rw e h ]

  applies-Holds : (es : List Event) (t t' : Threads) → Holds t → applies es t ≡ some t' → Holds t'
  unfolding applies Stays
  applies-Holds [] t t' h r = rw (ap (unwrap t) r) at h
  applies-Holds (e ∷ es) t t' h r = elim (Option-cases (apply e t)) [
    | inl n ↦ let bad : none ≡ some t' = rw (applies, n) at r in absurd (cc)
    | inr (t1, s) ↦
        let h1 : Holds t1 = rw s at (apply-Stays e t h) in
        applies-Holds es t1 t' h1 (rw (applies, s) at r)
  ]

  -- However threads lock and unlock a new mutex, at most one of them holds it, and it is free only when
  -- none does.
  pub reached-Holds : (es : List Event) (t : Threads) → applies es fresh ≡ some t → Holds t
  unfolding fresh new_mutex Holds
  reached-Holds es t r = applies-Holds es fresh t (inl (refl, omega arith)) r

  -- Whatever threads have done with a new mutex: when one is behind its `Lock` and another one in the
  -- midst of its `UnLock`, then as soon as the latter goes on, the mutex is held but its flag is off, so
  -- that the assertion of a `Wait` of the holder fails.
  pub lowering_late :
      (es : List Event) (t : Threads)
      → applies es fresh ≡ some t
      → 0 < t.inside
      → 0 < t.unlocking
      → (t' : Threads) × (apply lowering t ≡ some t')
        × (t'.inside ≡ 1)
        × (t'.mutex.held ≡ true)
        × (may_wait t'.mutex ≡ false)
  unfolding apply Holds
  lowering_late es t r holder late = elim (ℕ-cases t.unlocking) [
    | inl z ↦ absurd (omega (arith, z, late))
    | inr (n, e) ↦ elim (reached-Holds es t r) [
      | inl (free, z) ↦ absurd (omega (arith, z, holder))
      | inr (held, one) ↦ (
        record t { mutex = lower t.mutex; unlocking = n },
        rw e refl,
        omega (arith, one, holder),
        held,
        refl,
      )
    ]
  ]

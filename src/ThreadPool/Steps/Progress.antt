-- ===== src/ThreadPool/Steps/Progress.antt =====
-- No wake-up is lost.
use batonlib.Base.{
  ℕ, ◌<◌, ◌≡◌, refl, ap, inl, inr, false, some, List, [], ◌∷◌, ◌++◌, length, arith, leb,
}
use batonlib.Int.{ℤ}
use batonlib.Monitor.Counts.{sleepers, proceed-counts}
use batonlib.ThreadPool.{
  Task, ThreadPool, capacity, is_full, put, take, take_front, after_take, resume_take,
}
use batonlib.ThreadPool.Steps.{
  Event, putting_again, taking_again, History, after_put, log_take, with_take, apply, applies,
}
use batonlib.ThreadPool.Steps.Reached.{Started, fresh, reached-IsSound}

module _ (num : ℕ) (size : ℤ) (p : ThreadPool) (es : List Event) (h : History)
    (begun : Started num size p) (reached : applies es (fresh p) ≡ some h) (j i : ℕ) where
  -- After any steps of a started pool: when a thread sleeps in `take` while there is a task, then
  -- another one has been woken, and as soon as it has the mutex, it takes the first task.
  pub take_wakes :
      (task : Task) (rest : List Task)
      → 0 < sleepers h.pool.empty_cond
      → h.pool.queue ≡ task ∷ rest
      → (h' : History) × (apply (taking_again j i) h ≡ some h')
        × (h'.taken ≡ h.taken ++ task ∷ [])
        × (h'.pool.queue ≡ rest)
  unfolding apply with_take resume_take take log_take take_front after_take
  take_wakes task rest asleep q =
      let s = reached-IsSound num size p es h begun reached in
      elim (proceed-counts j h.pool.empty_cond) [
        | inl (z, _) ↦ absurd (elim s.takers [
          | inl awake ↦ omega (arith, awake)
          | inr le ↦ omega (arith, le, z, ap length q)
        ])
        | inr (u, c, e, _, _) ↦ (
          log_take h (take_front i (task ∷ rest) (record h.pool { empty_cond = c })),
          rw (e, resume_take)
              (ap (λ x. some (log_take h (take_front i x (record h.pool { empty_cond = c })))) q),
          refl,
          refl,
        )
      ]

  -- After any steps of a started pool: when a caller of `put` sleeps while the queue has room, then
  -- another one has been woken, and as soon as it has the mutex, its task is queued.
  pub put_wakes :
      0 < sleepers h.pool.full_cond
      → length h.pool.queue < capacity h.pool.queue_max_size
      → (task : Task) × (h' : History) × (apply (putting_again j i) h ≡ some h')
        × (h'.pool.queue ≡ h.pool.queue ++ task ∷ [])
        × (h'.accepted ≡ h.accepted ++ task ∷ [])
  unfolding apply put is_full after_put
  put_wakes asleep room =
      let s = reached-IsSound num size p es h begun reached in
      elim (proceed-counts j h.pool.full_cond) [
        | inl (z, _) ↦
            absurd
              (elim s.putters [ inl awake ↦ omega (arith, awake) | inr le ↦ omega (arith, le, z) ])
        | inr (task, c, e, _, _) ↦
            let free : leb (capacity h.pool.queue_max_size) (length h.pool.queue) ≡ false =
              ground arith in
            (
              task,
              after_put task h (put i task (record h.pool { full_cond = c })),
              rw (e, apply) refl,
              rw (put, free) refl,
              rw (put, free) refl,
            )
      ]

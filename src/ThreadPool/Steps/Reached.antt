-- ===== src/ThreadPool/Steps/Reached.antt =====
-- What holds of a pool after any steps.
use batonlib.Base.{
  ℕ-cases, ℕ, suc, ◌+◌, ◌≡◌, refl, sym, ap, ◌∙◌, inl, inr, Bool, true, false, Option, none, some,
  Option-cases, unwrap, List, [], ◌∷◌, length, arith, if◌then◌else◌,
}
use batonlib.Monitor.{new_condition, pick_out}
use batonlib.Monitor.Counts.{proceed-counts, length-pick_out}
use batonlib.Int.{ℤ}
use batonlib.ThreadPool.{
  new_thread_pool, set_queue_size, start, Workers, ThreadPool, test_running, call_take, resume_take,
  finish_task,
}
use batonlib.ThreadPool.Steps.{
  Event, putting, putting_again, waking_put, testing, taking, taking_again, waking_take, finishing,
  stopping, History, with_pool, with_take, apply, applies,
}
use batonlib.ThreadPool.Steps.Sound.{
  IsSound, weaker, put-IsSound, take-IsSound, notify_take-IsSound, notify_put-IsSound, stop-IsSound,
}

-- A step keeps what holds.
pub Keeps : Option History → Type 0
Keeps none = Unit
Keeps (some h) = IsSound h

again_put-IsSound : (j i : ℕ) (h : History) → IsSound h → Keeps (apply (putting_again j i) h)
unfolding apply Keeps
again_put-IsSound j i h s = elim (proceed-counts j h.pool.full_cond) [
  | inl (z, e) ↦ rw (e, apply) tt
  | inr (task, c, e, same, one_less) ↦
      rw (e, apply)
        (put-IsSound i task (record h { pool = record h.pool { full_cond = c } })
          (record {
            order = s.order;
            bounded = s.bounded;
            takers = s.takers;
            putters = elim s.putters [
              | inl z ↦ inl (ap length same ∙ z)
              | inr le ↦ inr (omega (arith, le, one_less))
            ];
            stopped = s.stopped;
            counted = s.counted;
          }))
]

again_take-IsSound : (j i : ℕ) (h : History) → IsSound h → Keeps (apply (taking_again j i) h)
unfolding apply Keeps with_take resume_take
again_take-IsSound j i h s = elim (proceed-counts j h.pool.empty_cond) [
  | inl (z, e) ↦ rw (e, apply, resume_take) tt
  | inr (u, c, e, same, one_less) ↦
      let lengths = ap length same in
      rw (e, resume_take)
        (take-IsSound i (record h { pool = record h.pool { empty_cond = c } })
          (record {
            order = s.order;
            bounded = s.bounded;
            takers = elim s.takers [
              | inl z ↦ inl (lengths ∙ z)
              | inr le ↦ inr (omega (arith, le, one_less))
            ];
            putters = s.putters;
            stopped = λ off. lengths ∙ s.stopped off;
            counted = omega (arith, s.counted, lengths, one_less);
          }))
]

first_take-IsSound : (i : ℕ) (h : History) → IsSound h → Keeps (apply (taking i) h)
unfolding apply Keeps with_take call_take
first_take-IsSound i h s = elim (ℕ-cases h.pool.workers.at_take) [
  | inl z ↦ rw (z, call_take) tt
  | inr (n, e) ↦
      rw (e, call_take)
        (take-IsSound i
          (record h { pool = record h.pool { workers = record h.pool.workers { at_take = n } } })
          (record {
            order = s.order;
            bounded = s.bounded;
            takers = elim s.takers [ inl z ↦ inl z | inr le ↦ inr (omega (arith, le)) ];
            putters = s.putters;
            stopped = s.stopped;
            counted = omega (arith, s.counted, e);
          }))
]

with_workers-IsSound :
    (h : History) (w : Workers)
    → IsSound h
    → w.at_test + w.at_take + length w.busy + w.ended
      ≡ h.pool.workers.at_test
        + h.pool.workers.at_take
        + length h.pool.workers.busy
        + h.pool.workers.ended
    → IsSound (record h { pool = record h.pool { workers = w } })
with_workers-IsSound h w s same = record {
  order = s.order;
  bounded = s.bounded;
  takers = s.takers;
  putters = s.putters;
  stopped = s.stopped;
  counted = omega (arith, s.counted, same);
}

either :
    (b : Bool) (P : ThreadPool → Type 0) (x y : ThreadPool) → P x → P y → P (if b then x else y)
either true P x y px py = px
either false P x y px py = py

test-IsSound : (h : History) → IsSound h → Keeps (apply testing h)
unfolding apply Keeps with_pool test_running
test-IsSound h s = elim (ℕ-cases h.pool.workers.at_test) [
  | inl z ↦ rw (z, test_running) tt
  | inr (n, e) ↦
      let w = h.pool.workers in
      rw (e, test_running)
        (either h.pool.running (λ p. IsSound (record h { pool = p })) _ _
          (with_workers-IsSound h (record w { at_test = n; at_take = suc w.at_take }) s
            (omega (arith, e)))
          (with_workers-IsSound h (record w { at_test = n; ended = suc w.ended }) s
            (omega (arith, e))))
]

finish-IsSound : (j : ℕ) (h : History) → IsSound h → Keeps (apply (finishing j) h)
unfolding apply Keeps with_pool finish_task
finish-IsSound j h s = elim (Option-cases (pick_out j h.pool.workers.busy)) [
  | inl e ↦ rw (e, finish_task) tt
  | inr ((task, rest), e) ↦
      let w = h.pool.workers in
      rw (e, finish_task)
        (with_workers-IsSound h (record w { at_test = suc w.at_test; busy = rest }) s
          (omega (arith, length-pick_out j w.busy rest task e)))
]

pub apply-IsSound : (e : Event) (h : History) → IsSound h → Keeps (apply e h)
unfolding apply Keeps
apply-IsSound (putting i task) h s = put-IsSound i task h (weaker s)
apply-IsSound (putting_again j i) h s = again_put-IsSound j i h s
apply-IsSound (waking_put i) h s = notify_put-IsSound i h s
apply-IsSound testing h s = test-IsSound h s
apply-IsSound (taking i) h s = first_take-IsSound i h s
apply-IsSound (taking_again j i) h s = again_take-IsSound j i h s
apply-IsSound (waking_take i) h s = notify_take-IsSound i h s
apply-IsSound (finishing j) h s = finish-IsSound j h s
apply-IsSound stopping h s = stop-IsSound h s

pub kept : (o : Option History) (h : History) → Keeps o → o ≡ some h → IsSound h
unfolding Keeps
kept none h k e = cc
kept (some h') h k e = rw (sym (ap (unwrap h') e)) k

pub applies-IsSound :
    (es : List Event) (h h' : History) → IsSound h → applies es h ≡ some h' → IsSound h'
unfolding applies
applies-IsSound [] h h' s e = rw (sym (ap (unwrap h) e)) s
applies-IsSound (ev ∷ es) h h' s e = elim (Option-cases (apply ev h)) [
  | inl gone ↦ let e' = rw (gone, applies) at e in cc
  | inr (h1, there) ↦
      applies-IsSound es h1 h' (kept _ h1 (apply-IsSound ev h s) there) (rw (there, applies) at e)
]

-- A pool that has been started with a number of threads and a size of its queue.
abbrev pub Started : (num : ℕ) (size : ℤ) → ThreadPool → Type 0
Started num size p = start num (set_queue_size size new_thread_pool) ≡ some p

-- Before its first step.
abbrev pub fresh : ThreadPool → History
fresh p = record { pool = p; accepted = []; taken = [] }

Started-IsSound : (num : ℕ) (size : ℤ) (p : ThreadPool) → Started num size p → IsSound (fresh p)
unfolding start set_queue_size new_thread_pool new_condition
Started-IsSound num size p e = rw (sym (ap (unwrap p) e)) (record {
  order = refl;
  bounded = omega arith;
  takers = inl refl;
  putters = inl refl;
  stopped = λ off. refl;
  counted = omega arith;
})

-- Whatever the threads of a started pool and the callers of `put` and `stop` do, in whatever order and
-- however they are woken, the tasks taken and then those queued are the accepted ones in their order;
-- the queue keeps to its size; none of the threads is lost; none sleeps in `take` once the pool has
-- been stopped; and there are as many woken threads as queued tasks where one sleeps in `take`, and
-- as many woken callers as free places where one sleeps in `put`.
pub reached-IsSound :
    (num : ℕ) (size : ℤ) (p : ThreadPool) (es : List Event) (h : History)
    → Started num size p
    → applies es (fresh p) ≡ some h
    → IsSound h
reached-IsSound num size p es h e r =
    applies-IsSound es (fresh p) h (Started-IsSound num size p e) r

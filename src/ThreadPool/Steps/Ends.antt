-- ===== src/ThreadPool/Steps/Ends.antt =====
-- A pool that has been stopped.
use batonlib.Base.{
  ℕ-cases, ℕ, zero, suc, ◌+◌, ◌*◌, ◌<◌, ◌≡◌, ◌≢◌, refl, sym, ap, inl, inr, Bool, true, false,
  Option, none, some, Option-cases, unwrap, List, [], ◌∷◌, length, arith, if◌then◌else◌, ==_refl,
}
use batonlib.Int.{ℤ}
use batonlib.Monitor.{pick_out, wait}
use batonlib.Monitor.Counts.{risers, proceed-counts, length-pick_out, pick_out_nil}
use batonlib.ThreadPool.{
  Task, ThreadPool, Taken, waits, returns, take_front, take, after_take, test_running, call_take,
  resume_take, finish_task, stop, joined,
}
use batonlib.ThreadPool.Steps.{
  Event, putting, putting_again, waking_put, testing, taking, taking_again, waking_take, finishing,
  stopping, History, log_take, with_pool, with_take, apply, applies,
}
use batonlib.ThreadPool.Steps.Sound.{IsSound}
use batonlib.ThreadPool.Steps.Reached.{apply-IsSound, kept, Started, fresh, reached-IsSound}

-- The steps of the pool's own threads.
abbrev pub is_thread_step : Event → Bool
is_thread_step testing = true
is_thread_step (taking i) = true
is_thread_step (taking_again j i) = true
is_thread_step (finishing j) = true
is_thread_step (putting i task) = false
is_thread_step (putting_again j i) = false
is_thread_step (waking_put i) = false
is_thread_step (waking_take i) = false
is_thread_step stopping = false

-- Whatever its threads do next, they come to the end of their loops, so that every `join` of `stop`
-- returns: each has ended, or one of them can go on and wherever it goes, this holds again.
pub data Ends : History → Type 0 where
  all_ended : {h : History} → joined h.pool ≡ true → Ends h
  goes_on :
      {h : History} (e : Event) (h' : History)
      → is_thread_step e ≡ true
      → apply e h ≡ some h'
      → ((e : Event) (h' : History) → is_thread_step e ≡ true → apply e h ≡ some h' → Ends h')
      → Ends h

-- How many steps the threads have before them, at most.
left : ThreadPool → ℕ
left p =
    3 * risers p.empty_cond + 3 * p.workers.at_take + 2 * length p.workers.busy + p.workers.at_test

Shrinks : ℕ → Option History → Type 0
Shrinks n none = Unit
Shrinks n (some h) = (left h.pool < n) × (h.pool.running ≡ false)

if_off {ℓ} : {A : Type ℓ} (b : Bool) (x y : A) → b ≡ false → (if b then x else y) ≡ y
if_off b x y off = rw off refl

take-Shrinks :
    (i n : ℕ) (h : History)
    → suc (suc (left h.pool)) < n
    → h.pool.running ≡ false
    → Shrinks n (some (log_take h (take i h.pool)))
unfolding take take_front log_take after_take Shrinks left
take-Shrinks i n h fewer off = go h.pool.queue
  where
    go : (q : List Task) → Shrinks n (some (log_take h (take_front i q h.pool)))
    go [] =
        let waiting : Taken × ThreadPool =
          (waits, record h.pool { empty_cond = wait tt h.pool.empty_cond }) in
        rw (if_off h.pool.running waiting (returns none, h.pool) off) (omega (arith, fewer), off)
    go (task ∷ rest) = (omega (arith, fewer), off)

test-Shrinks : (h : History) → h.pool.running ≡ false → Shrinks (left h.pool) (apply testing h)
unfolding apply Shrinks with_pool test_running left
test-Shrinks h off = elim (ℕ-cases h.pool.workers.at_test) [
  | inl z ↦ rw (z, test_running) tt
  | inr (n, e) ↦ rw (e, test_running, if_off h.pool.running _ _ off) (omega arith, off)
]

first_take-Shrinks :
    (i : ℕ) (h : History) → h.pool.running ≡ false → Shrinks (left h.pool) (apply (taking i) h)
unfolding apply Shrinks with_take call_take left
first_take-Shrinks i h off = elim (ℕ-cases h.pool.workers.at_take) [
  | inl z ↦ rw (z, call_take) tt
  | inr (n, e) ↦
      let h1 = record h {
        pool = record h.pool { workers = record h.pool.workers { at_take = n } };
      } in
      rw (e, call_take) (take-Shrinks i _ h1 (omega (arith, e)) off)
]

again_take-Shrinks :
    (j i : ℕ) (h : History)
    → h.pool.running ≡ false
    → Shrinks (left h.pool) (apply (taking_again j i) h)
unfolding apply Shrinks with_take resume_take left
again_take-Shrinks j i h off = elim (proceed-counts j h.pool.empty_cond) [
  | inl (z, e) ↦ rw (e, resume_take) tt
  | inr (u, c, e, same, one_less) ↦
      let h1 = record h { pool = record h.pool { empty_cond = c } } in
      rw (e, resume_take) (take-Shrinks i _ h1 (omega (arith, one_less)) off)
]

finish-Shrinks :
    (j : ℕ) (h : History) → h.pool.running ≡ false → Shrinks (left h.pool) (apply (finishing j) h)
unfolding apply Shrinks with_pool finish_task left
finish-Shrinks j h off = elim (Option-cases (pick_out j h.pool.workers.busy)) [
  | inl e ↦ rw (e, finish_task) tt
  | inr ((task, rest), e) ↦
      rw (e, finish_task) (omega (arith, length-pick_out j h.pool.workers.busy rest task e), off)
]

apply-Shrinks :
    (e : Event) (h : History)
    → is_thread_step e ≡ true
    → h.pool.running ≡ false
    → Shrinks (left h.pool) (apply e h)
apply-Shrinks testing h step off = test-Shrinks h off
apply-Shrinks (taking i) h step off = first_take-Shrinks i h off
apply-Shrinks (taking_again j i) h step off = again_take-Shrinks j i h off
apply-Shrinks (finishing j) h step off = finish-Shrinks j h off
apply-Shrinks (putting i task) h step off = cc
apply-Shrinks (putting_again j i) h step off = cc
apply-Shrinks (waking_put i) h step off = cc
apply-Shrinks (waking_take i) h step off = cc
apply-Shrinks stopping h step off = cc

shrunk :
    (o : Option History) (n : ℕ) (h : History)
    → Shrinks n o
    → o ≡ some h
    → (left h.pool < n) × (h.pool.running ≡ false)
unfolding Shrinks
shrunk none n h k e = cc
shrunk (some h') n h k e = rw (sym (ap (unwrap h') e)) k

possible : (e : Event) (h : History) → apply e h ≢ none → (h' : History) × (apply e h ≡ some h')
possible e h no_gap = elim (Option-cases (apply e h)) [
  | inl gone ↦ absurd (no_gap gone)
  | inr there ↦ there
]

-- Some thread can go on while there is something before them.
moves :
    (h : History)
    → 0 < left h.pool
    → (e : Event) × (h' : History) × (is_thread_step e ≡ true) × (apply e h ≡ some h')
unfolding left apply with_pool with_take test_running call_take resume_take finish_task
moves h some_left = elim (ℕ-cases h.pool.workers.at_test) [
  | inr (n, e) ↦
      let (h', there) = possible testing h (λ gone. let g = rw (e, test_running) at gone in cc) in
      (testing, h', refl, there)
  | inl z ↦ elim (ℕ-cases h.pool.workers.at_take) [
    | inr (n, e) ↦
        let (h', there) = possible (taking 0) h (λ gone. let g = rw (e, call_take) at gone in cc) in
        (taking 0, h', refl, there)
    | inl z1 ↦ elim (Option-cases (pick_out 0 h.pool.workers.busy)) [
      | inr (task, e) ↦
          let (h', there) =
            possible (finishing 0) h (λ gone. let g = rw (e, finish_task) at gone in cc) in
          (finishing 0, h', refl, there)
      | inl e ↦ elim (proceed-counts 0 h.pool.empty_cond) [
        | inr (u, c, e', _, _) ↦
            let (h', there) =
              possible (taking_again 0 0) h (λ gone. let g = rw (e', resume_take) at gone in cc) in
            (taking_again 0 0, h', refl, there)
        | inl (z2, _) ↦
            let z3 = ap length (pick_out_nil 0 h.pool.workers.busy e) in
            absurd (omega (arith, z, z1, z2, z3, some_left))
      ]
    ]
  ]
]

stopped-Ends : (n : ℕ) (h : History) → left h.pool < n → IsSound h → h.pool.running ≡ false → Ends h
unfolding left joined
stopped-Ends zero h less s off = absurd (omega arith)
stopped-Ends (suc n) h less s off = elim (ℕ-cases (left h.pool)) [
  | inl z ↦
      let all : h.pool.workers.ended ≡ h.pool.threads =
        omega (arith, z, s.counted, s.stopped off) in
      all_ended (rw all (==_refl h.pool.threads))
  | inr (k, e) ↦
      let (ev, h', step, there) = moves h (omega (arith, e)) in
      goes_on ev h' step there (λ ev h' step there.
        let (fewer, off') = shrunk _ _ h' (apply-Shrinks ev h step off) there in
        stopped-Ends n h' (omega (arith, fewer)) (kept _ h' (apply-IsSound ev h s) there) off')
]

-- When a pool that has been started is stopped, then wherever its threads stand, whatever tasks are
-- queued and however the threads go on, with tasks that return, they come to the end of their loops,
-- and never are all of them stuck before.
pub stop-Ends :
    (num : ℕ) (size : ℤ) (p : ThreadPool) (es : List Event) (h : History)
    → Started num size p
    → applies es (fresh p) ≡ some h
    → Ends (record h { pool = stop h.pool })
unfolding stop apply
stop-Ends num size p es h e r =
    let s = kept _ _ (apply-IsSound stopping h (reached-IsSound num size p es h e r)) refl in
    stopped-Ends (suc (left (stop h.pool))) _ (omega arith) s refl

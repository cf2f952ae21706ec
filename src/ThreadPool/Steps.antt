-- ===== src/ThreadPool/Steps.antt =====
-- The pool's threads and those who put tasks, in any order.
pub mod Sound
pub mod Reached
pub mod Ends
pub mod Progress
mod Tests
use batonlib.Base.{ℕ, zero, suc, Bool, true, false, Option, none, some, List, [], ◌∷◌, ◌++◌}
use batonlib.Monitor.{Condition, notify, proceed}
use batonlib.ThreadPool.{
  Task, ThreadPool, put, Taken, waits, returns, stop, after_take, test_running, call_take,
  resume_take, finish_task,
}

-- The numbers say which thread is woken, and which one goes on. `waking_put` and `waking_take` are
-- wake-ups without a signal.
pub data Event : Type 0 where
  putting : (i : ℕ) (task : Task) → Event
  putting_again : (j i : ℕ) → Event
  waking_put : (i : ℕ) → Event
  testing : Event
  taking : (i : ℕ) → Event
  taking_again : (j i : ℕ) → Event
  waking_take : (i : ℕ) → Event
  finishing : (j : ℕ) → Event
  stopping : Event

-- A pool, with the tasks that `put` has accepted and those that `take` has handed out.
pub record History : Type 0 where
  pub pool : ThreadPool
  pub accepted : List Task
  pub taken : List Task

pub after_put : Task → History → Bool × ThreadPool → History
after_put task h (true, p) = record h { pool = p; accepted = h.accepted ++ task ∷ [] }
after_put task h (false, p) = record h { pool = p }

pub log_take : History → Taken × ThreadPool → History
log_take h (waits, p) = record h { pool = after_take (waits, p) }
log_take h (returns none, p) = record h { pool = after_take (returns none, p) }
log_take h (returns (some task), p) = record h {
  pool = after_take (returns (some task), p);
  taken = h.taken ++ task ∷ [];
}

with_pool : History → Option ThreadPool → Option History
with_pool h none = none
with_pool h (some p) = some (record h { pool = p })

with_take : History → Option (Taken × ThreadPool) → Option History
unfolding log_take
with_take h none = none
with_take h (some r) = some (log_take h r)

-- `none` where there is no such thread.
pub apply : Event → History → Option History
unfolding after_put with_pool with_take
apply (putting i task) h = some (after_put task h (put i task h.pool))
apply (putting_again j i) h = elim (proceed j h.pool.full_cond) [
  | none ↦ none
  | some (task, c) ↦ some (after_put task h (put i task (record h.pool { full_cond = c })))
]
apply (waking_put i) h =
    some (record h { pool = record h.pool { full_cond = notify i h.pool.full_cond } })
apply testing h = with_pool h (test_running h.pool)
apply (taking i) h = with_take h (call_take i h.pool)
apply (taking_again j i) h = with_take h (resume_take j i h.pool)
apply (waking_take i) h =
    some (record h { pool = record h.pool { empty_cond = notify i h.pool.empty_cond } })
apply (finishing j) h = with_pool h (finish_task j h.pool)
apply stopping h = some (record h { pool = stop h.pool })

pub applies : List Event → History → Option History
applies [] h = some h
applies (e ∷ es) h = elim (apply e h) [ none ↦ none | some h' ↦ applies es h' ]

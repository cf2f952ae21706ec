-- ===== src/ThreadPool.antt =====
-- Batonlib/base/ThreadPool.cpp: tasks that are put into a queue and taken by the threads of the pool.
-- What a thread does with the mutex held, from a call or from a wake-up to a return or to the next
-- wait, is one step. A task is a number, and the empty `std::function` that `take` may return is `none`.
pub mod Steps
use batonlib.Base.{
  ℕ, zero, suc, ◌+◌, ◌-◌, ◌^◌, Bool, true, false, not, ◌&&◌, Option, none, some, List, [], ◌∷◌,
  ◌++◌, length, leb, ◌==◌, if◌then◌else◌,
}
use batonlib.Int.{ℤ, pos, negsuc}
use batonlib.Monitor.{Condition, new_condition, pick_out, wait, notify, notify_all, proceed}

abbrev pub Task : Type 0
Task = ℕ

-- How many of its threads stand where: at the test of `Thread_func`'s loop, before `take`, or behind
-- the loop; `busy` are the tasks that are running. The others wait in `take`.
pub record Workers : Type 0 where
  pub at_test : ℕ
  pub at_take : ℕ
  pub busy : List Task
  pub ended : ℕ

-- A call that waits for `full_cond` holds its task.
pub record ThreadPool : Type 0 where
  pub queue_max_size : ℤ
  pub running : Bool
  pub queue : List Task
  pub full_cond : Condition Task
  pub empty_cond : Condition (Unit {0})
  pub threads : ℕ
  pub workers : Workers

pub new_thread_pool : ThreadPool
new_thread_pool = record {
  queue_max_size = pos 100;
  running = false;
  queue = [];
  full_cond = new_condition;
  empty_cond = new_condition;
  threads = 0;
  workers = record { at_test = 0; at_take = 0; busy = []; ended = 0 };
}

pub set_queue_size : ℤ → ThreadPool → ThreadPool
set_queue_size size p = record p { queue_max_size = size }

-- `none` is an assertion that fails.
pub start : ℕ → ThreadPool → Option ThreadPool
start num p =
    if p.threads == 0
    then some
        (record p { running = true; threads = num; workers = record p.workers { at_test = num } })
    else none

-- The comparison with a `size_t` makes the `int` unsigned.
abbrev pub capacity : ℤ → ℕ
capacity (pos n) = n
capacity (negsuc n) = 2 ^ 64 - 1 - n

pub is_full : ThreadPool → Bool
is_full p = leb (capacity p.queue_max_size) (length p.queue)

pub queue_size : ThreadPool → ℕ
queue_size p = length p.queue

-- `put`, from its start or from a wake-up: whether it returns. `i` says whom the signal wakes.
pub put : (i : ℕ) → Task → ThreadPool → Bool × ThreadPool
unfolding is_full
put i task p =
    if is_full p
    then (false, record p { full_cond = wait task p.full_cond })
    else (true, record p { queue = p.queue ++ task ∷ []; empty_cond = notify i p.empty_cond })

pub data Taken : Type 0 where
  waits : Taken
  returns : Option Task → Taken

-- `take`, likewise.
take_front : ℕ → List Task → ThreadPool → Taken × ThreadPool
take_front i [] p =
    if p.running then (waits, record p { empty_cond = wait tt p.empty_cond }) else (returns none, p)
take_front i (task ∷ rest) p =
    (returns (some task), record p { queue = rest; full_cond = notify i p.full_cond })

pub take : ℕ → ThreadPool → Taken × ThreadPool
unfolding take_front
take i p = take_front i p.queue p

-- `stop`, up to its `join`s, which return when every thread has ended.
pub stop : ThreadPool → ThreadPool
stop p = record p { running = false; empty_cond = notify_all p.empty_cond }

pub joined : ThreadPool → Bool
joined p = p.workers.ended == p.threads

-- What `Thread_func` does with what `take` has returned.
pub after_take : Taken × ThreadPool → ThreadPool
after_take (waits, p) = p
after_take (returns none, p) = record p {
  workers = record p.workers { at_test = suc p.workers.at_test };
}
after_take (returns (some task), p) = record p {
  workers = record p.workers { busy = task ∷ p.workers.busy };
}

-- A thread of the pool at the test of its loop; `none` where there is none there.
pub test_running : ThreadPool → Option ThreadPool
test_running p = elim p.workers.at_test [
  | zero ↦ none
  | suc n ↦ some (
      if p.running
      then record p { workers = record p.workers { at_test = n; at_take = suc p.workers.at_take } }
      else record p { workers = record p.workers { at_test = n; ended = suc p.workers.ended } })
]

-- One that calls `take`, one that goes on in it, and one whose task returns.
pub call_take : ℕ → ThreadPool → Option (Taken × ThreadPool)
unfolding take
call_take i p = elim p.workers.at_take [
  | zero ↦ none
  | suc n ↦ some (take i (record p { workers = record p.workers { at_take = n } }))
]

pub resume_take : (j i : ℕ) → ThreadPool → Option (Taken × ThreadPool)
unfolding take
resume_take j i p = elim (proceed j p.empty_cond) [
  | none ↦ none
  | some (_, c) ↦ some (take i (record p { empty_cond = c }))
]

pub finish_task : ℕ → ThreadPool → Option ThreadPool
finish_task j p = elim (pick_out j p.workers.busy) [
  | none ↦ none
  | some (_, rest) ↦
      some
        (record p { workers = record p.workers { at_test = suc p.workers.at_test; busy = rest } })
]

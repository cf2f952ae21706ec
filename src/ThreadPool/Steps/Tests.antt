-- ===== src/ThreadPool/Steps/Tests.antt =====
-- A pool of two threads with a queue of one task.
use batonlib.Base.{◌≡◌, refl, true, some, List, [], ◌∷◌, arith}
use batonlib.Int.{pos}
use batonlib.Monitor.{new_condition, wait, notify}
use batonlib.ThreadPool.{
  ThreadPool, new_thread_pool, set_queue_size, start, is_full, put, take_front, take, stop,
  after_take, test_running, call_take,
}
use batonlib.ThreadPool.Steps.{
  Event, putting, testing, taking, taking_again, History, after_put, log_take, with_pool, with_take,
  apply, applies,
}
use batonlib.ThreadPool.Steps.Sound.{IsSound}
use batonlib.ThreadPool.Steps.Reached.{Started, fresh, reached-IsSound}
use batonlib.ThreadPool.Steps.Ends.{Ends, stop-Ends}
use batonlib.ThreadPool.Steps.Progress.{take_wakes}

abbrev two_threads : ThreadPool
two_threads = record {
  queue_max_size = pos 1;
  running = true;
  queue = [];
  full_cond = record { waiting = []; woken = [] };
  empty_cond = record { waiting = []; woken = [] };
  threads = 2;
  workers = record { at_test = 2; at_take = 0; busy = []; ended = 0 };
}

two_threads-Started : Started 2 (pos 1) two_threads
unfolding start set_queue_size new_thread_pool new_condition
two_threads-Started = refl

-- Both threads sleep, and a task wakes one of them.
abbrev one_task : List Event
one_task = testing ∷ testing ∷ taking 0 ∷ taking 0 ∷ putting 0 7 ∷ []

abbrev one_woken : History
one_woken = record {
  pool = record two_threads {
    queue = 7 ∷ [];
    empty_cond = record { waiting = tt ∷ []; woken = tt ∷ [] };
    workers = record { at_test = 0; at_take = 0; busy = []; ended = 0 };
  };
  accepted = 7 ∷ [];
  taken = [];
}

one_task_lem : applies one_task (fresh two_threads) ≡ some one_woken
unfolding applies apply with_pool with_take after_put log_take test_running call_take take
    take_front put is_full wait notify after_take
one_task_lem = refl

-- Three tasks are put, and the first one is taken.
abbrev three_tasks : List Event
three_tasks = putting 0 7 ∷ putting 0 8 ∷ putting 0 9 ∷ testing ∷ taking 0 ∷ []

abbrev one_taken : History
one_taken = record {
  pool = record two_threads {
    full_cond = record { waiting = 9 ∷ []; woken = 8 ∷ [] };
    workers = record { at_test = 1; at_take = 0; busy = 7 ∷ []; ended = 0 };
  };
  accepted = 7 ∷ [];
  taken = 7 ∷ [];
}

three_tasks_lem : applies three_tasks (fresh two_threads) ≡ some one_taken
unfolding applies apply with_pool with_take after_put log_take test_running call_take take
    take_front put is_full wait notify after_take
three_tasks_lem = refl

reached-IsSound_example : IsSound one_woken
reached-IsSound_example =
    reached-IsSound 2 (pos 1) two_threads one_task one_woken two_threads-Started one_task_lem

stop-Ends_example : Ends (record one_taken { pool = stop one_taken.pool })
stop-Ends_example =
    stop-Ends 2 (pos 1) two_threads three_tasks one_taken two_threads-Started three_tasks_lem

take_wakes_example :
    (h' : History) × (apply (taking_again 0 0) one_woken ≡ some h')
    × (h'.taken ≡ 7 ∷ [])
    × (h'.pool.queue ≡ [])
take_wakes_example =
    take_wakes 2 (pos 1) two_threads one_task one_woken two_threads-Started one_task_lem 0 0 7 []
      (omega arith) refl

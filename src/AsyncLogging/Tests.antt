-- ===== src/AsyncLogging/Tests.antt =====
-- Two lines and two rounds of the writing thread.
use batonlib.Base.{
  length, ◌≡◌, false, true, refl, sym, ap, some, unwrap, List, [], ◌∷◌, ◌++◌, inl, arith,
}
use batonlib.Bytes.{Bytes, get_bytes}
use batonlib.LogStream.{LogBuffer}
use batonlib.AsyncLogging.{AsyncLogging, Writer, append}
use batonlib.Int.{pos}
use batonlib.Mutex.{new_mutex}
use batonlib.Mutex.Tests.{pthread}
use batonlib.AppendFile
use batonlib.LogFile
use batonlib.LogFile.{LogFile}
use batonlib.LogFile.Flushes
use batonlib.LogFile.Tests.{plain}
use batonlib.AsyncLogging.{limit}
use batonlib.AsyncLogging.Loop.{
  over, at_test, in_turn, Logger, Event, appending_line, stopping, testing, turning, texts, applies,
}
use batonlib.AsyncLogging.Stops.{stop_in_turn}
use batonlib.AsyncLogging.Rounds.{Step, appending, writing, steps, IsReady, Goes, steps-IsReady}
use batonlib.AsyncLogging.Held.{IsSound, concat, held}
use batonlib.AsyncLogging.Order.{lines, Delivers, steps-Delivers}

abbrev pub zeros : Bytes
zeros i = 0

abbrev empty : LogBuffer
empty = record { data_ = zeros; cur = 0 }

abbrev pub log : AsyncLogging
log = record { current = empty; next = some empty; buffers = [] }

abbrev thread : Writer
thread = record { new_buffer1 = some empty; new_buffer2 = some empty; output = [] }

abbrev some_steps : List Step
some_steps = appending zeros (65 ∷ []) ∷ writing ∷ appending zeros (66 ∷ 67 ∷ []) ∷ writing ∷ []

log-IsReady : IsReady thread log
log-IsReady = record { first_new = refl; second_new = refl; full = inl (λ e. cc) }

pub log-IsSound : IsSound log
log-IsSound = record {
  fits = omega arith;
  next_new = λ b e. sym (ap (λ o. (unwrap empty o).cur) e);
}

steps-IsReady_example : Goes (steps some_steps thread log)
steps-IsReady_example = steps-IsReady some_steps thread log log-IsReady

steps-Delivers_example :
    Delivers
      ((concat thread.output ++ held log) ++ concat (lines some_steps))
      (steps some_steps thread log)
steps-Delivers_example =
    steps-Delivers some_steps thread log log-IsReady log-IsSound (omega arith, (omega arith, tt))
      (omega arith)

-- A log file that flushes itself at its 1024th text.
abbrev file : LogFile plain
file = record { every_n_flush = pos 1024; count = 0; ptr_mutex = new_mutex; file = [] }

-- Stopped, with the thread before the test of its loop.
abbrev stopped : Logger plain
stopped = record { log = log; writer = thread; file = file; running = false; place = at_test }

abbrev late_line : List Event
late_line = appending_line zeros (65 ∷ []) ∷ testing ∷ []

abbrev left_over : Logger plain
left_over = record stopped { log = append zeros (65 ∷ []) log; place = over }

file-IsReady : Flushes.IsReady plain pthread file 1024 (length (texts log))
unfolding new_mutex limit
file-IsReady = record { every = refl; left = omega arith; free = refl }

stop_in_turn_example :
    (l : Logger plain) × (applies plain pthread 1
        (stopping ∷ turning ∷ testing ∷ [])
        (record { log = log; writer = thread; file = file; running = true; place = in_turn })
      ≡ some l)
    × (l.place ≡ over)
    × (l.file.file ≡ file.file ++ held log)
unfolding limit get_bytes
stop_in_turn_example =
    stop_in_turn plain pthread 0 1024 (λ line f. refl) log thread file true log-IsReady
      (omega arith) (omega arith, tt) file-IsReady

-- ===== src/AsyncLogging/Loop.antt =====
-- The thread of the asynchronous log from its start to its end, with its loop's test, its wait, and its
-- writes to the log file (Batonlib/base/LogFile.cpp).
use batonlib.Base.{
  ℕ, Bool, true, false, Option, none, some, List, [], ◌∷◌, ◌++◌, map, if◌then◌else◌,
}
use batonlib.Bytes.{Bytes}
use batonlib.LogStream.{LogBuffer, contents, new_log_buffer, bzero}
use batonlib.Stdio.{Stdio, Pthread}
use batonlib.LogFile
use batonlib.LogFile.{LogFile}
use batonlib.AsyncLogging.{AsyncLogging, Writer, append, limit, round}

-- Where the thread is: before the test of its loop, in the wait of a turn, behind the loop, or in a call
-- of the log file that does not return.
pub data Place : Type 0 where
  at_test : Place
  in_turn : Place
  over : Place
  stuck : Place

-- A new buffer of zeros, from the memory that it gets.
unfoldable pub new_buffer : Bytes → LogBuffer
new_buffer d = bzero (new_log_buffer d)

pub data Event : Type 0 where
  appending_line : Bytes → List ℕ → Event
  stopping : Event
  testing : Event
  turning : Event

-- The texts that a turn writes.
abbrev pub texts : AsyncLogging → List (List ℕ)
texts log = map (λ b. contents b) (limit (log.buffers ++ log.current ∷ []))

module _ (s : Stdio) where
  -- `file` is the thread's `output`. A stuck thread's variables are not looked at any more.
  pub record Logger : Type 0 where
    pub log : AsyncLogging
    pub writer : Writer
    pub file : LogFile s
    pub running : Bool
    pub place : Place

  -- The constructor, and `start` up to the loop of the new thread; the four buffers get their memory.
  unfoldable pub start_logger : (d1 d2 d3 d4 : Bytes) → LogFile s → Logger
  unfolding new_buffer
  start_logger d1 d2 d3 d4 file = record {
    log = record { current = new_buffer d1; next = some (new_buffer d2); buffers = [] };
    writer = record {
      new_buffer1 = some (new_buffer d3);
      new_buffer2 = some (new_buffer d4);
      output = [];
    };
    file = file;
    running = true;
    place = at_test;
  }

  -- `stop` up to its join, which returns when the thread has ended.
  unfoldable pub stop_logger : Logger → Logger
  stop_logger l = record l { running = false }

  module _ (p : Pthread) where
    -- `while (running_)`, and the flush behind the loop.
    unfoldable pub test_loop : Logger → Option Logger
    test_loop l = elim l.place [
      | at_test ↦ some (
          if l.running then record l { place = in_turn } else elim (LogFile.flush s p l.file) [
            | none ↦ record l { place = stuck }
            | some file ↦ record l { file = file; place = over }
          ])
      | in_turn ↦ none
      | over ↦ none
      | stuck ↦ none
    ]

    -- The writes of a turn and the flush behind them; `fuel` bounds the writes of a text.
    unfoldable pub write_out : ℕ → List (List ℕ) → LogFile s → Option (LogFile s)
    write_out fuel lines file = elim (LogFile.appends s p fuel lines file) [
      | none ↦ none
      | some file' ↦ LogFile.flush s p file'
    ]

    -- A turn from the end of its wait on; `none` is an assertion that fails.
    unfoldable pub turn : ℕ → Logger → Option Logger
    unfolding write_out
    turn fuel l = elim l.place [
      | at_test ↦ none
      | in_turn ↦ elim (round l.writer l.log) [
        | none ↦ none
        | some (t, log) ↦ elim (write_out fuel (texts l.log) l.file) [
          | none ↦ some (record l { log = log; place = stuck })
          | some file ↦ some (record l { log = log; writer = t; file = file; place = at_test })
        ]
      ]
      | over ↦ none
      | stuck ↦ none
    ]

    unfoldable pub apply : ℕ → Event → Logger → Option Logger
    unfolding stop_logger test_loop turn
    apply fuel (appending_line d line) l = some (record l { log = append d line l.log })
    apply fuel stopping l = some (stop_logger l)
    apply fuel testing l = test_loop l
    apply fuel turning l = turn fuel l

    unfoldable pub applies : ℕ → List Event → Logger → Option Logger
    applies fuel [] l = some l
    applies fuel (e ∷ es) l = elim (apply fuel e l) [ none ↦ none | some l' ↦ applies fuel es l' ]

-- ===== src/Logging.antt =====
-- Batonlib/base/Logging.cpp: one statement of the log, whose line is put together in a stream and
-- handed to the asynchronous log when the statement ends. The text of the time is what `strftime` gives.
pub mod Lines
mod Tests
use batonlib.Base.{ℕ, Option, none, some, List, [], ◌∷◌}
use batonlib.Int.{ℤ}
use batonlib.Bytes.{Bytes}
use batonlib.LogStream.{LogBuffer, contents, new_log_buffer, print_text, print_char, print_int}
use batonlib.AsyncLogging
use batonlib.AsyncLogging.{AsyncLogging}

-- `impl_`, with the buffer of its stream.
pub record Logging : Type 0 where
  pub basename : List ℕ
  pub line : ℤ
  pub stream : LogBuffer

-- `formatTime`
pub format_time : List ℕ → LogBuffer → LogBuffer
format_time str_t b = print_text (some str_t) b

pub new_logging : (str_t filename : List ℕ) (line : ℤ) (d : Bytes) → Logging
unfolding format_time
new_logging str_t filename line d = record {
  basename = filename;
  line = line;
  stream = format_time str_t (new_log_buffer d);
}

-- `stream() << text`
pub log_text : List ℕ → Logging → Logging
log_text text l = record l { stream = print_text (some text) l.stream }

-- What the destructor writes: " -- ", the name, a colon, the number and a newline.
pub end_line : Logging → Option LogBuffer
end_line l =
    let named =
      print_text (some l.basename) (print_text (some (32 ∷ 45 ∷ 45 ∷ 32 ∷ [])) l.stream) in
    elim (print_int l.line (print_char 58 named)) [ none ↦ none | some b ↦ some (print_char 10 b) ]

-- `output`, behind the start of the logger.
pub output : Bytes → List ℕ → AsyncLogging → AsyncLogging
output d msg s = AsyncLogging.append d msg s

-- The destructor.
pub delete_logging : Bytes → Logging → AsyncLogging → Option AsyncLogging
unfolding end_line output
delete_logging d l s = elim (end_line l) [ none ↦ none | some b ↦ some (output d (contents b) s) ]

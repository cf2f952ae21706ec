-- ===== src/Logging/Tests.antt =====
-- The line "2hi -- a.c:12".
use batonlib.Base.{ℕ, ◌≡◌, some, List, [], ◌∷◌, ◌++◌, arith}
use batonlib.Int.{pos}
use batonlib.LogStream.Integers.{read}
use batonlib.AsyncLogging.{AsyncLogging}
use batonlib.AsyncLogging.Held.{IsSound, held}
use batonlib.AsyncLogging.Tests.{zeros, log, log-IsSound}
use batonlib.Logging.{new_logging, log_text, delete_logging}
use batonlib.Logging.Lines.{line_of, delete_logging_lem}

delete_logging_lem_example :
    (s : AsyncLogging) × (cs : List ℕ) × (delete_logging zeros
        (log_text (104 ∷ 105 ∷ []) (new_logging (50 ∷ []) (97 ∷ 46 ∷ 99 ∷ []) (pos 12) zeros))
        log
      ≡ some s)
    × (read cs ≡ some (pos 12))
    × (held s ≡ held log ++ line_of (50 ∷ []) (104 ∷ 105 ∷ []) (97 ∷ 46 ∷ 99 ∷ []) cs)
    × IsSound s
delete_logging_lem_example =
    delete_logging_lem (50 ∷ []) (104 ∷ 105 ∷ []) (97 ∷ 46 ∷ 99 ∷ []) (pos 12) zeros zeros log
      (omega arith) (omega arith) log-IsSound

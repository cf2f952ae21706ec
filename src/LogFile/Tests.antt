-- ===== src/LogFile/Tests.antt =====
-- A log file that flushes itself at its third text.
use batonlib.Base.{ℕ, ◌≡◌, refl, sym, ap, none, List, [], ◌∷◌, ◌++◌, length, take-length, arith}
use batonlib.Int.{pos}
use batonlib.Stdio.{Stdio}
use batonlib.Mutex.{new_mutex}
use batonlib.Mutex.Tests.{pthread}
use batonlib.LogFile.{LogFile, appends}
use batonlib.LogFile.Flushes.{IsReady, appends_blocked}

-- A file without bounds.
abbrev pub plain : Stdio
plain = record {
  File = List ℕ;
  text = λ f. f;
  fwrite = λ cs f. (length cs, f ++ cs);
  fflush = λ f. f;
  fwrite_le = λ cs f. omega arith;
  fwrite_text = λ cs f. ap (λ bs. f ++ bs) (sym (take-length cs));
  fflush_text = λ f. refl;
}

abbrev log : LogFile plain
log = record { every_n_flush = pos 3; count = 0; ptr_mutex = new_mutex; file = [] }

log-IsReady : IsReady plain pthread log 3 2
unfolding new_mutex
log-IsReady = record { every = refl; left = omega arith; free = refl }

appends_blocked_example : appends plain pthread 1 ((7 ∷ []) ∷ (8 ∷ []) ∷ (9 ∷ []) ∷ []) log ≡ none
appends_blocked_example =
    appends_blocked plain pthread 0 3 ((7 ∷ []) ∷ (8 ∷ []) ∷ []) (9 ∷ []) log (λ line f. refl)
      (omega arith, (omega arith, tt)) (omega arith) log-IsReady (omega arith)

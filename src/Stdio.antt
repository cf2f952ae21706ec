-- ===== src/Stdio.antt =====
-- What the log files use of the C library: a buffered file and a mutex. They are parameters.
use batonlib.Base.{ℕ, ◌≤◌, ◌≡◌, Bool, true, false, Option, none, some, List, ◌++◌, length, take}

-- A file opened for appending. `fwrite` returns how many bytes it has taken; these are the first ones
-- of the text, and stand behind what was written before.
pub record Stdio : Type 1 where
  pub File : Type 0
  pub text : File → List ℕ
  pub fwrite : List ℕ → File → ℕ × File
  pub fflush : File → File
  pub fwrite_le : (cs : List ℕ) (f : File) → (fwrite cs f).0 ≤ length cs
  pub fwrite_text :
      (cs : List ℕ) (f : File) → text (fwrite cs f).1 ≡ text f ++ take (fwrite cs f).0 cs
  pub fflush_text : (f : File) → text (fflush f) ≡ text f

-- A mutex of the default kind, by whether it is held; `none` is a call that does not return.
pub record Pthread : Type 0 where
  pub mutex_lock : Bool → Option Bool
  pub mutex_unlock : Bool → Bool
  pub lock_free : mutex_lock false ≡ some true
  pub lock_held : mutex_lock true ≡ none
  pub unlock_held : mutex_unlock true ≡ false

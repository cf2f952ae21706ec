-- ===== src/LogFile.antt =====
-- Batonlib/base/LogFile.cpp: a log file that is flushed
-- after every so many texts. `none` is a call that does not return.
pub mod Flushes
pub mod Tests
use batonlib.Base.{ℕ, suc, Bool, true, false, Option, none, some, List, [], ◌∷◌, leb, if◌then◌else◌}
use batonlib.Int.{ℤ, pos, negsuc}
use batonlib.Stdio.{Stdio, Pthread}
use batonlib.AppendFile
use batonlib.Mutex.{Mutex, new_mutex, lock, unlock}

module _ (s : Stdio) where
  open s use {File}

  pub record LogFile : Type 0 where
    pub every_n_flush : ℤ
    pub count : ℕ
    pub ptr_mutex : Mutex
    pub file : File

  module _ (p : Pthread) where
    unfoldable pub flush : LogFile → Option LogFile
    flush l = elim (lock p l.ptr_mutex) [
      | none ↦ none
      | some m ↦ some (record l { file = AppendFile.flush s l.file; ptr_mutex = unlock p m })
    ]

    -- `count_ >= Every_n_flush_`
    is_due : LogFile → Bool
    is_due l = elim l.every_n_flush [ pos n ↦ leb n l.count | negsuc n ↦ true ]

    -- `fuel` bounds the writes to the file.
    append_unlock : ℕ → List ℕ → LogFile → Option LogFile
    append_unlock fuel line l = elim (AppendFile.append s fuel line l.file) [
      | none ↦ none
      | some f ↦
          let l' = record l { file = f; count = suc l.count } in
          if is_due l'
          then elim (flush l') [ none ↦ none | some l'' ↦ some (record l'' { count = 0 }) ]
          else some l'
    ]

    pub append : ℕ → List ℕ → LogFile → Option LogFile
    unfolding append_unlock is_due
    append fuel line l = elim (lock p l.ptr_mutex) [
      | none ↦ none
      | some m ↦ elim (append_unlock fuel line (record l { ptr_mutex = m })) [
        | none ↦ none
        | some l' ↦ some (record l' { ptr_mutex = unlock p l'.ptr_mutex })
      ]
    ]

    -- Several texts, one after the other.
    pub appends : ℕ → List (List ℕ) → LogFile → Option LogFile
    appends fuel [] l = some l
    appends fuel (line ∷ lines) l = elim (append fuel line l) [
      | none ↦ none
      | some l' ↦ appends fuel lines l'
    ]

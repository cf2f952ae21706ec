-- ===== src/LogFile/Flushes.antt =====
-- A log file takes texts until it has to flush itself: it then waits for its own mutex.
use mathlib.Core.List.{append_assoc}
use batonlib.Base.{
  ℕ, suc, ◌+◌, ◌<◌, ◌≤◌, ◌≡◌, refl, sym, ◌∙◌, true, false, none, some, List, [], ◌∷◌, ◌++◌, length,
  append_nil, arith, leb,
}
use batonlib.Int.{pos}
use batonlib.Stdio.{Stdio, Pthread}
use batonlib.AppendFile
use batonlib.AppendFile.{size_mod}
use batonlib.AppendFile.Writes.{append_whole}
use batonlib.Mutex.{Mutex, lock, unlock}
use batonlib.LogFile.{LogFile, flush, is_due, append, appends}

-- The texts one behind the other.
abbrev pub joined : List (List ℕ) → List ℕ
joined [] = []
joined (line ∷ lines) = line ++ joined lines

abbrev pub AreShort : List (List ℕ) → Type 0
AreShort [] = Unit {0}
AreShort (line ∷ lines) = (length line < size_mod) × AreShort lines

module _ (p : Pthread) (m : Mutex) where
  lock_of_free : m.held ≡ false → lock p m ≡ some (record { held = true; is_lock = true })
  unfolding lock
  lock_of_free free = rw (free, p.lock_free, lock)

  lock_of_held : m.held ≡ true → lock p m ≡ none
  unfolding lock
  lock_of_held held = rw (held, p.lock_held, lock)

module _ (s : Stdio) (p : Pthread) where
  open s use {File, text, fwrite}

  -- The file takes every text at once.
  abbrev pub TakesAll : Type 0
  TakesAll = (line : List ℕ) (f : s.File) → (s.fwrite line f).0 ≡ length line

  -- Where its mutex is free, a flush returns, and leaves the text as it is.
  pub flush_free :
      (l : LogFile s)
      → l.ptr_mutex.held ≡ false
      → (l' : LogFile s) × (flush s p l ≡ some l')
        × (text l'.file ≡ text l.file)
        × (l'.ptr_mutex.held ≡ false)
  unfolding flush unlock AppendFile.flush
  flush_free l free = (
    record l {
      file = AppendFile.flush s l.file;
      ptr_mutex = unlock p (record { held = true; is_lock = true });
    },
    rw (lock_of_free p l.ptr_mutex free, flush) refl,
    s.fflush_text l.file,
    p.unlock_held,
  )

  is_due_lem : (n : ℕ) (l : LogFile s) → l.every_n_flush ≡ pos n → is_due s p l ≡ leb n l.count
  unfolding is_due
  is_due_lem n l e = rw (e, is_due)

  -- Before the count is reached, a text goes to the file, and the mutex is free again.
  append_early :
      (takes : TakesAll) (fuel n : ℕ) (line : List ℕ) (l : LogFile s)
      → length line < size_mod
      → l.every_n_flush ≡ pos n
      → suc l.count < n
      → l.ptr_mutex.held ≡ false
      → (l' : LogFile s) × (append s p (suc fuel) line l ≡ some l')
        × (text l'.file ≡ text l.file ++ line)
        × (l'.count ≡ suc l.count)
        × (l'.every_n_flush ≡ pos n)
        × (l'.ptr_mutex.held ≡ false)
  unfolding append unlock
  append_early takes fuel n line l small every early free =
      let (f, done, written) = append_whole s fuel line l.file small (takes line l.file) in
      let l1 : LogFile s = record l {
        file = f;
        count = suc l.count;
        ptr_mutex = record { held = true; is_lock = true };
      } in
      let due : is_due s p l1 ≡ false = is_due_lem n l1 every ∙ (ground arith) in
      (
        record l {
          file = f;
          count = suc l.count;
          ptr_mutex = record { held = false; is_lock = false };
        },
        rw (lock_of_free p l.ptr_mutex free, done, due, p.unlock_held, append),
        written,
        refl,
        every,
        refl,
      )

  -- With the count, `append` waits for the mutex that it holds.
  append_due :
      (takes : TakesAll) (fuel n : ℕ) (line : List ℕ) (l : LogFile s)
      → length line < size_mod
      → l.every_n_flush ≡ pos n
      → n ≤ suc l.count
      → l.ptr_mutex.held ≡ false
      → append s p (suc fuel) line l ≡ none
  unfolding append flush
  append_due takes fuel n line l small every late free =
      let (f, done, written) = append_whole s fuel line l.file small (takes line l.file) in
      let m : Mutex = record { held = true; is_lock = true } in
      let l1 : LogFile s = record l { file = f; count = suc l.count; ptr_mutex = m } in
      let due : is_due s p l1 ≡ true = is_due_lem n l1 every ∙ (ground arith) in
      rw (lock_of_free p l.ptr_mutex free, done, due, lock_of_held p m refl, append)

  -- A log file with room for `k` more texts before it flushes itself.
  pub record IsReady (l : LogFile s) (n k : ℕ) : Type 0 where
    pub every : l.every_n_flush ≡ pos n
    pub left : l.count + k < n
    pub free : l.ptr_mutex.held ≡ false

  -- Where the file takes every text at once, a log file takes fewer texts than `Every_n_flush_` in
  -- all: each call returns, and the texts stand in their order behind what the file held.
  pub appends_early :
      (fuel n : ℕ) (lines : List (List ℕ)) (l : LogFile s)
      → TakesAll
      → AreShort lines
      → IsReady l n (length lines)
      → (l' : LogFile s) × (appends s p (suc fuel) lines l ≡ some l')
        × (text l'.file ≡ text l.file ++ joined lines)
        × (l'.count ≡ l.count + length lines)
        × IsReady l' n 0
  unfolding appends
  appends_early fuel n [] l takes short r =
      (l, refl, sym (append_nil (text l.file)), omega arith, r)
  appends_early fuel n (line ∷ lines) l takes (small, short) r =
      let (l1, done, written, count, every, free) =
        append_early takes fuel n line l small r.every (omega (arith, r.left)) r.free in
      let (l2, done', written', count', r') =
        appends_early fuel n lines l1 takes short
          (record { every = every; left = omega (arith, r.left, count); free = free }) in
      (
        l2,
        rw (done, appends) done',
        written' ∙ rw (written, append_assoc (text l.file) line (joined lines)),
        omega (arith, count, count'),
        r',
      )

  -- The text that makes `Every_n_flush_` of them never returns: `flush` locks the mutex that `append`
  -- holds. Again the file takes every text at once.
  pub appends_blocked :
      (fuel n : ℕ) (lines : List (List ℕ)) (line : List ℕ) (l : LogFile s)
      → TakesAll
      → AreShort lines
      → length line < size_mod
      → IsReady l n (length lines)
      → suc (l.count + length lines) ≡ n
      → appends s p (suc fuel) (lines ++ line ∷ []) l ≡ none
  unfolding appends
  appends_blocked fuel n [] line l takes short small r full =
      rw (append_due takes fuel n line l small r.every (omega (arith, full)) r.free, appends)
  appends_blocked fuel n (first ∷ lines) line l takes (fits, short) small r full =
      let (l1, done, _, count, every, free) =
        append_early takes fuel n first l fits r.every (omega (arith, r.left)) r.free in
      rw (done, appends)
        (appends_blocked fuel n lines line l1 takes short small
          (record { every = every; left = omega (arith, r.left, count); free = free })
          (omega (arith, count, full)))

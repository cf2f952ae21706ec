-- ===== src/AppendFile.antt =====
-- Batonlib/base/AppendFile.cpp: a text is written to a file, again and again while something of it
-- remains.
pub mod Writes
mod Tests
use batonlib.Base.{
  ℕ, zero, suc, ◌+◌, ◌-◌, ◌%◌, ◌^◌, Option, none, some, List, length, ◌==◌, if◌then◌else◌,
}
use batonlib.Stdio.{Stdio}

abbrev pub size_mod : ℕ
size_mod = 2 ^ 64

module _ (s : Stdio) where
  open s use {File, fwrite, fflush}

  -- `while (remain > 0)`; `none` means that the fuel ran out.
  pub write_remaining : ℕ → List ℕ → ℕ → File → Option File
  write_remaining zero line remain f = none
  write_remaining (suc fuel) line remain f =
      let (x, f') = fwrite line f in
      let rest = write_remaining fuel line ((remain + size_mod - x) % size_mod) f' in
      if remain == 0 then some f else if x == 0 then some f' else rest

  pub append : ℕ → List ℕ → File → Option File
  unfolding write_remaining
  append fuel line f =
      let (n, f') = fwrite line f in
      write_remaining fuel line ((length line + size_mod - n) % size_mod) f'

  unfoldable pub flush : File → File
  flush f = fflush f

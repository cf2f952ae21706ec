-- ===== src/AppendFile/Writes.antt =====
-- What a file holds after `AppendFile::append`.
use batonlib.Base.{
  ℕ, suc, ◌+◌, ◌-◌, ◌%◌, ◌<◌, ◌≡◌, ◌∙◌, some, List, ◌++◌, length, take, take-length, append_nil,
  arith, ◌==◌, ne→==, false,
}
use batonlib.Stdio.{Stdio}
use batonlib.AppendFile.{size_mod, write_remaining, append}

module _ (s : Stdio) where
  open s use {File, text, fwrite, fwrite_le, fwrite_text}

  text-whole :
      (line : List ℕ) (f : File)
      → (fwrite line f).0 ≡ length line
      → text (fwrite line f).1 ≡ text f ++ line
  text-whole line f e = fwrite_text line f ∙ rw (e, take-length line)

  some_left :
      (line : List ℕ) (f : File)
      → length line < size_mod
      → (fwrite line f).0 < length line
      → ((length line + size_mod - (fwrite line f).0) % size_mod == 0) ≡ false
  some_left line f small short = ne→== _ 0 (λ k. omega arith)

  -- When the file takes the whole text, `append` returns, and the text stands once behind what the
  -- file held. The text has fewer than 2 ^ 64 bytes.
  pub append_whole :
      (fuel : ℕ) (line : List ℕ) (f : File)
      → length line < size_mod
      → (fwrite line f).0 ≡ length line
      → (f' : File) × (append s (suc fuel) line f ≡ some f') × (text f' ≡ text f ++ line)
  unfolding append write_remaining
  append_whole fuel line f small e =
      let none_left : (length line + size_mod - (fwrite line f).0) % size_mod ≡ 0 = omega arith in
      ((fwrite line f).1, rw none_left, text-whole line f e)

  -- When the file takes `n` bytes and then nothing, `append` returns, and these `n` bytes stand behind
  -- what the file held.
  append_failing :
      (fuel : ℕ) (line : List ℕ) (f : File)
      → length line < size_mod
      → (fwrite line f).0 < length line
      → (fwrite line (fwrite line f).1).0 ≡ 0
      → (f' : File) × (append s (suc fuel) line f ≡ some f')
        × (text f' ≡ text f ++ take (fwrite line f).0 line)
  unfolding append write_remaining
  append_failing fuel line f small short failed =
      let f1 = (fwrite line f).1 in
      let left = some_left line f small short in
      (
        (fwrite line f1).1,
        rw (left, failed),
        fwrite_text line f1 ∙ rw (failed, append_nil (text f1)) (fwrite_text line f),
      )

  -- When the file takes only some bytes of the text and the whole text at the second try, the text
  -- stands behind its own beginning, and the loop goes on with a remainder that has wrapped round.
  pub append_repeats :
      (fuel : ℕ) (line : List ℕ) (f : File)
      → length line < size_mod
      → 0 < (fwrite line f).0
      → (fwrite line f).0 < length line
      → (fwrite line (fwrite line f).1).0 ≡ length line
      → (f' : File) × (append s (suc fuel) line f
          ≡ write_remaining s fuel line (size_mod - (fwrite line f).0) f')
        × (text f' ≡ (text f ++ take (fwrite line f).0 line) ++ line)
  unfolding append write_remaining
  append_repeats fuel line f small some_bytes short e =
      let f1 = (fwrite line f).1 in
      let n = (fwrite line f).0 in
      let left = some_left line f small short in
      let going : (length line == 0) ≡ false = ne→== (length line) 0 (λ k. omega arith) in
      let wrapped : ((length line + size_mod - n) % size_mod + size_mod - length line) % size_mod
          ≡ size_mod - n =
        omega arith in
      (
        (fwrite line f1).1,
        rw (left, e, going, wrapped),
        text-whole line f1 e ∙ rw (fwrite_text line f),
      )

-- ===== src/AppendFile/Tests.antt =====
-- A file that is told how much to take at each write, and the theorems of `AppendFile` on it.
use batonlib.Base.{
  ℕ, ◌-◌, ◌≤◌, ◌≡◌, refl, List, [], ◌∷◌, ◌++◌, length, take, arith, leb, if◌then◌else◌,
}
use batonlib.Stdio.{Stdio}
use batonlib.AppendFile.{size_mod, write_remaining, append}
use batonlib.AppendFile.Writes.{append_repeats}

-- The bounds of the next writes, and the text.
abbrev Bounded : Type 0
Bounded = List ℕ × List ℕ

abbrev accepted : List ℕ → Bounded → ℕ
accepted cs ([], t) = length cs
accepted cs (n ∷ ns, t) = if leb n (length cs) then n else length cs

abbrev rest : Bounded → List ℕ
rest ([], t) = []
rest (n ∷ ns, t) = ns

accepted-le : (cs : List ℕ) (f : Bounded) → accepted cs f ≤ length cs
accepted-le cs ([], t) = omega arith
accepted-le cs (n ∷ ns, t) = ground arith

abbrev bounded : Stdio
bounded = record {
  File = Bounded;
  text = λ f. f.1;
  fwrite = λ cs f. (accepted cs f, (rest f, f.1 ++ take (accepted cs f) cs));
  fflush = λ f. f;
  fwrite_le = accepted-le;
  fwrite_text = λ cs f. refl;
  fflush_text = λ f. refl;
}

append_repeats_example :
    (f' : Bounded) × (append bounded 3 (1 ∷ 2 ∷ []) (1 ∷ [], 9 ∷ [])
      ≡ write_remaining bounded 2 (1 ∷ 2 ∷ []) (size_mod - 1) f')
    × (f'.1 ≡ 9 ∷ 1 ∷ 1 ∷ 2 ∷ [])
append_repeats_example =
    append_repeats bounded 2 (1 ∷ 2 ∷ []) (1 ∷ [], 9 ∷ []) (omega arith) (omega arith) (omega arith)
      refl

-- ===== src/Stackless/Steps.antt =====
-- Resuming step by step.
use mathlib.Core.List.{append_assoc}
use batonlib.Base.{
  Distinct, ℕ, zero, suc, ◌≡◌, refl, sym, ap, ◌∙◌, List, [], ◌∷◌, ◌++◌, ◌==◌, ◌∉◌, map, arith,
  ==_refl, false,
}
use batonlib.Int.{pos}
use batonlib.Stackless.{
  Segment, next_flag, switch, reenter, CoroutineStackless, new_coroutine_stackless, resume, resumes,
}

module _ {W : Type 0} where
  -- What n resumptions run: the segments in their order, and the last one again and again.
  pub run : ℕ → List (Segment W) → W → W
  run zero body w = w
  run (suc n) [] w = w
  run (suc n) (s ∷ []) w = run n (s ∷ []) (s.code w)
  run (suc n) (s ∷ t ∷ rest) w = run n (t ∷ rest) (s.code w)

  abbrev pub labels : List (Segment W) → List ℕ
  labels body = map (λ s. s.label) body

  -- Past the segments before it, a label finds its own.
  switch-skip :
      (before : List (Segment W)) (s : Segment W) (rest : List (Segment W)) (w : W)
      → s.label ∉ labels before
      → switch (before ++ s ∷ rest) (pos s.label) w ≡ (s.code w, next_flag (pos s.label) rest)
  unfolding switch
  switch-skip [] s rest w out = rw (==_refl s.label) refl
  switch-skip (b ∷ before) s rest w out =
      let off : (s.label == b.label) ≡ false = ground arith in
      rw (switch, off) (switch-skip before s rest w (ground arith))

  off_head :
      (x : ℕ) (xs : List (Segment W)) (s : Segment W) (rest : List (Segment W))
      → x ∉ labels (xs ++ s ∷ rest)
      → (s.label == x) ≡ false
  off_head x [] s rest out = ground arith
  off_head x (y ∷ xs) s rest out = off_head x xs s rest (ground arith)

  before_out :
      (before : List (Segment W)) (s : Segment W) (rest : List (Segment W))
      → Distinct (labels (before ++ s ∷ rest))
      → s.label ∉ labels before
  before_out [] s rest d = refl
  before_out (b ∷ before) s rest (out, d) =
      ground (arith, off_head b.label before s rest out, before_out before s rest d)

  -- The next resumption runs `s`.
  resume-skip :
      (before : List (Segment W)) (s : Segment W) (rest : List (Segment W)) (w : W)
      → Distinct (labels (before ++ s ∷ rest))
      → resume (record { counter = pos s.label; func = before ++ s ∷ rest; arg = w }) ≡ record {
        counter = next_flag (pos s.label) rest;
        func = before ++ s ∷ rest;
        arg = s.code w;
      }
  unfolding resume reenter
  resume-skip before s rest w d =
      rw (resume, reenter, switch-skip before s rest w (before_out before s rest d)) refl

  at_segment :
      (n : ℕ) (before : List (Segment W)) (s : Segment W) (rest : List (Segment W)) (w : W)
      → Distinct (labels (before ++ s ∷ rest))
      → (resumes n (record { counter = pos s.label; func = before ++ s ∷ rest; arg = w })).arg
        ≡ run n (s ∷ rest) w
  unfolding resumes run next_flag
  at_segment zero before s rest w d = refl
  at_segment (suc n) before s [] w d =
      ap (λ co. (resumes n co).arg) (resume-skip before s [] w d)
      ∙ at_segment n before s [] (s.code w) d
  at_segment (suc n) before s (t ∷ rest) w d =
      let e : (before ++ s ∷ []) ++ t ∷ rest ≡ before ++ s ∷ t ∷ rest =
        append_assoc before (s ∷ []) (t ∷ rest) in
      let co : List (Segment W) → CoroutineStackless W =
        λ body. record { counter = pos t.label; func = body; arg = s.code w } in
      ap (λ co. (resumes n co).arg) (resume-skip before s (t ∷ rest) w d)
      ∙ sym (ap (λ body. (resumes n (co body)).arg) e)
      ∙ at_segment n (before ++ s ∷ []) t rest (s.code w) (rw (sym e) at d)

  -- When the labels differ and the first one is 0, n resumptions of a new coroutine do what its
  -- segments do one after the other, with the last one run again for every resumption after the end.
  pub resumes_lem :
      (n : ℕ) (s : Segment W) (rest : List (Segment W)) (w : W)
      → s.label ≡ 0
      → Distinct (labels (s ∷ rest))
      → (resumes n (new_coroutine_stackless (s ∷ rest) w)).arg ≡ run n (s ∷ rest) w
  unfolding new_coroutine_stackless
  resumes_lem n s rest w z d =
      let co : ℕ → CoroutineStackless W =
        λ k. record { counter = pos k; func = s ∷ rest; arg = w } in
      sym (ap (λ k. (resumes n (co k)).arg) z) ∙ at_segment n [] s rest w d

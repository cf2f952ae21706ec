-- ===== src/Stackless/Tests.antt =====
-- Three segments that write down a step each.
use batonlib.Base.{ℕ, ◌≡◌, refl, List, [], ◌∷◌}
use batonlib.Stackless.{Segment, new_coroutine_stackless, resumes}
use batonlib.Stackless.Steps.{run, resumes_lem}

abbrev step : ℕ → Segment (List ℕ)
step n = record { label = n; code = λ w. n ∷ w }

resumes_lem_example :
    (resumes 4 (new_coroutine_stackless (step 0 ∷ step 1 ∷ step 2 ∷ []) [])).arg
    ≡ run 4 (step 0 ∷ step 1 ∷ step 2 ∷ []) []
resumes_lem_example =
    resumes_lem 4 (step 0) (step 1 ∷ step 2 ∷ []) [] refl ((refl, (refl, (refl, tt))))

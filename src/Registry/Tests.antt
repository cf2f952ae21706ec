-- ===== src/Registry/Tests.antt =====
-- A second scheduler on a thread that has one, and another one when it is destroyed.
use batonlib.Base.{◌≡◌, refl, [], ◌∷◌, none, List, true, false}
use batonlib.FdMap.{find}
use batonlib.Registry.{get_curr_thr_sch}
use batonlib.Registry.Numbers.{
  Making, making, deleting, applies, answers, owners, Keeps, applies-Keeps,
}

abbrev several : List Making
several = making 5 1 ∷ making 5 2 ∷ making 6 3 ∷ deleting 5 ∷ making 5 4 ∷ []

empty-Keeps : Keeps [] (λ thread. none)
unfolding Keeps get_curr_thr_sch find
empty-Keeps thread = refl

applies-Keeps_example :
    ((applies several []).0 ≡ true ∷ false ∷ true ∷ true ∷ true ∷ [])
    × Keeps (applies several []).1 (owners several (λ thread. none))
unfolding answers
applies-Keeps_example = applies-Keeps several [] (λ thread. none) empty-Keeps

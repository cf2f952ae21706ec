-- ===== src/Coroutine/Tests.antt =====
-- Coroutine 1 is the first one; it makes two others, of which one resumes the other.
use batonlib.Base.{◌≡◌, refl, some, List, [], ◌∷◌, arith}
use batonlib.Coroutine.{
  CoThread, new_thread, new_main, new_coroutine, made, resume, yield, finish, clear_co, delete_all,
}
use batonlib.Coroutine.Events.{
  Event, creating, resuming, yielding, finishing, clearing, apply, Allowed, IsSound, applies,
  AllAllowed,
}
use batonlib.Coroutine.Reached.{new_thread-IsSound, applies_lem}
use batonlib.Coroutine.Turns.{Same, life, life_lem}

abbrev nested : List Event
nested =
    creating 2 1000 5000
    ∷ creating 3 1000 7000
    ∷ resuming 2
    ∷ resuming 3
    ∷ yielding
    ∷ finishing
    ∷ clearing
    ∷ []

nested-AllAllowed : AllAllowed 1 77 nested (new_thread 1)
unfolding AllAllowed Allowed apply new_thread new_main resume yield finish clear_co made
    new_coroutine delete_all
nested-AllAllowed = (
  refl,
  (refl, ((refl, refl), ((refl, refl), ((λ e. omega arith), ((λ e. omega arith), (tt, tt)))))),
)

applies_lem_example : (t : CoThread) × (applies 77 nested (new_thread 1) ≡ some t) × IsSound 1 t
applies_lem_example = applies_lem 1 77 nested nested-AllAllowed

life_lem_example :
    (t : CoThread) × (applies 77 (life 2 1000 5000) (new_thread 1) ≡ some t) × Same (new_thread 1) t
unfolding new_thread
life_lem_example = life_lem 1 77 2 1000 5000 (new_thread 1) (new_thread-IsSound 1) refl refl

-- ===== src/Coroutine/Reached.antt =====
-- Whatever coroutines do.
use batonlib.Base.{ℕ, ◌≡◌, refl, none, some, List, [], ◌∷◌, eq_of_mem}
use batonlib.Coroutine.{CoThread, new_main, new_thread}
use batonlib.Coroutine.Events.{Event, apply, IsSound, applies, AllAllowed}
use batonlib.Coroutine.Switch.{set_self}
use batonlib.Coroutine.Kept.{outcome, apply-Kept}

applies-IsSound :
    (main wrapper : ℕ) (es : List Event) (t : CoThread)
    → IsSound main t
    → AllAllowed main wrapper es t
    → (t' : CoThread) × (applies wrapper es t ≡ some t') × IsSound main t'
unfolding applies AllAllowed
applies-IsSound main wrapper [] t s _ = (t, refl, s)
applies-IsSound main wrapper (e ∷ es) t s (a, rest) =
    let (t1, run, s1) = outcome main (apply wrapper e t) (apply-Kept main wrapper e t s a) in
    let (t', runs, s') = applies-IsSound main wrapper es t1 s1 (rw run at rest) in
    (t', rw (applies, run) runs, s')

pub new_thread-IsSound : (main : ℕ) → IsSound main (new_thread main)
unfolding new_thread new_main
new_thread-IsSound main = record {
  bottom = refl;
  top = ([], refl);
  distinct = (refl, tt);
  alive = λ a h.
      let e : a ≡ main = eq_of_mem a main h in
      rw (e, set_self (λ a. none) main (some new_main)) refl;
  once = tt;
  dead = λ a h. absurd (cc);
}

-- What the coroutines of a thread do, in any order in which their callers keep to `Allowed`, never
-- reaches a deleted object, deletes none twice and takes nothing from an empty stack; afterwards the top
-- of the call stack is what runs, the stack holds different coroutines that have not ended, with the
-- first one at its bottom, and those that wait to be deleted are different ones that have ended.
pub applies_lem :
    (main wrapper : ℕ) (es : List Event)
    → AllAllowed main wrapper es (new_thread main)
    → (t : CoThread) × (applies wrapper es (new_thread main) ≡ some t) × IsSound main t
applies_lem main wrapper es a =
    applies-IsSound main wrapper es (new_thread main) (new_thread-IsSound main) a

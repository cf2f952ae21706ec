-- ===== src/Coroutine/Events.antt =====
-- What coroutines do, one at a time.
use batonlib.Base.{
  Distinct, ℕ, ◌≡◌, ◌≢◌, Bool, true, false, Option, none, some, List, [], ◌∷◌, ◌∈◌, ◌∉◌,
  if◌then◌else◌,
}
use batonlib.Coroutine.{
  Coroutine, CoThread, set_object, new_coroutine, resume, yield, finish, clear_co,
}

-- The running coroutine makes another one, resumes one, yields, or comes to the end of its function;
-- the event loop clears the ended ones.
pub data Event : Type 0 where
  creating : (co stack_size base : ℕ) → Event
  resuming : (co : ℕ) → Event
  yielding : Event
  finishing : Event
  clearing : Event

unfoldable pub apply : (wrapper : ℕ) → Event → CoThread → Option CoThread
apply wrapper (creating co stack_size base) t =
    some (record t { objects = set_object co (some (new_coroutine stack_size base)) t.objects })
apply wrapper (resuming co) t = resume wrapper co t
apply wrapper yielding t = yield t
apply wrapper finishing t = finish t
apply wrapper clearing t = clear_co t

abbrev pub live : Option Coroutine → Bool
live none = false
live (some c) = if c.ended then false else true

abbrev pub over : Option Coroutine → Bool
over none = false
over (some c) = c.ended

-- What the code leaves to its callers: a new object has an address of its own; who is resumed is there,
-- has not ended and has not resumed others that still run; and the first coroutine neither yields
-- nor ends.
unfoldable pub Allowed : (main : ℕ) → Event → CoThread → Type 0
Allowed main (creating co stack_size base) t = t.objects co ≡ none
Allowed main (resuming co) t = (live (t.objects co) ≡ true) × (co ∉ t.call_stack)
Allowed main yielding t = t.running ≢ main
Allowed main finishing t = t.running ≢ main
Allowed main clearing t = Unit

-- The stack from its top to the first coroutine.
abbrev pub EndsWith : ℕ → List ℕ → Type 0
EndsWith main [] = ⊥
EndsWith main (x ∷ []) = x ≡ main
EndsWith main (x ∷ y ∷ xs) = (x ≢ main) × EndsWith main (y ∷ xs)

-- The top of the stack runs; on the stack are different coroutines that have not ended, the first one
-- at its bottom; those that wait to be deleted are different ones that have ended.
pub record IsSound (main : ℕ) (t : CoThread) : Type 0 where
  pub bottom : EndsWith main t.call_stack
  pub top : (rest : List ℕ) × (t.call_stack ≡ t.running ∷ rest)
  pub distinct : Distinct t.call_stack
  pub alive : (a : ℕ) → a ∈ t.call_stack → live (t.objects a) ≡ true
  pub once : Distinct t.destroy_co
  pub dead : (a : ℕ) → a ∈ t.destroy_co → over (t.objects a) ≡ true

unfoldable pub applies : (wrapper : ℕ) → List Event → CoThread → Option CoThread
applies wrapper [] t = some t
applies wrapper (e ∷ es) t = elim (apply wrapper e t) [
  | none ↦ none
  | some t' ↦ applies wrapper es t'
]

unfoldable pub AllAllowed : (main wrapper : ℕ) → List Event → CoThread → Type 0
AllAllowed main wrapper [] t = Unit
AllAllowed main wrapper (e ∷ es) t =
    Allowed main e t
    × elim (apply wrapper e t) [ none ↦ Unit | some t' ↦ AllAllowed main wrapper es t' ]

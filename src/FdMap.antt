-- ===== src/FdMap.antt =====
-- A `std::map<int, T>`, keyed by descriptors, as the list of its entries.
use batonlib.Base.{◌≡◌, refl, Option, none, some, List, [], ◌∷◌, if◌then◌else◌, arith}
use batonlib.Int.{ℤ, ◌==ℤ◌, ==ℤ_iff}

module _ {A : Type 0} where
  unfoldable pub find : ℤ → List (ℤ × A) → Option A
  find fd [] = none
  find fd ((k, v) ∷ m) = if k ==ℤ fd then some v else find fd m

  pub erase : ℤ → List (ℤ × A) → List (ℤ × A)
  erase fd [] = []
  erase fd ((k, v) ∷ m) = let rest = erase fd m in if k ==ℤ fd then rest else (k, v) ∷ rest

  pub insert : ℤ → A → List (ℤ × A) → List (ℤ × A)
  unfolding erase
  insert fd v m = (fd, v) ∷ erase fd m

  pub find-nil : (fd : ℤ) → find fd [] ≡ none
  unfolding find
  find-nil fd = refl

  pub find-cons :
      (fd k : ℤ) (v : A) (m : List (ℤ × A))
      → find fd ((k, v) ∷ m) ≡ (if k ==ℤ fd then some v else find fd m)
  unfolding find
  find-cons fd k v m = refl

  pub find-erase :
      (fd k : ℤ) (m : List (ℤ × A)) → find fd (erase k m) ≡ (if k ==ℤ fd then none else find fd m)
  unfolding find erase
  find-erase fd k [] = ground arith
  find-erase fd k ((j, v) ∷ m) =
      ground (arith, find-erase fd k m, ==ℤ_iff j k, ==ℤ_iff k fd, ==ℤ_iff j fd)

  pub find-insert :
      (fd k : ℤ) (v : A) (m : List (ℤ × A))
      → find fd (insert k v m) ≡ (if k ==ℤ fd then some v else find fd m)
  unfolding find insert
  find-insert fd k v m = ground (arith, find-erase fd k m)

  pub find-insert_self : (fd : ℤ) (v : A) (m : List (ℤ × A)) → find fd (insert fd v m) ≡ some v
  find-insert_self fd v m = rw (find-insert fd fd v m, (==ℤ_iff fd fd).1 refl) refl

-- ===== src/Base/Lists.antt =====
-- Lists measured and indexed by native numbers, and membership of a number as a test.
use Prim.Native.Nat.{ℕ, zero, suc, ◌+◌, ◌-◌, ◌≤◌}
use mathlib.Core.Path.{◌≡◌, refl, sym, ap, ◌∙◌}
use mathlib.Core.Logic.{◌≢◌, inl, inr, ◌⊎◌}
use mathlib.Core.Bool.{Bool, true, false, ◌||◌}
use mathlib.Core.List.{List, [], ◌∷◌, ◌++◌}
use mathlib.Core.Option.{Option, none, some}
use native.Mathlib.Omega.{arith}
use batonlib.Base.Tests.{if◌then◌else◌, Bool-cases, ==→eq, ◌==◌}

pub ℕ-cases : (n : ℕ) → (n ≡ 0) ⊎ ((k : ℕ) × (n ≡ suc k))
ℕ-cases zero = inl refl
ℕ-cases (suc k) = inr (k, refl)

module _ {ℓ} {A : Type ℓ} where
  pub Option-cases : (o : Option A) → (o ≡ none) ⊎ ((a : A) × (o ≡ some a))
  Option-cases none = inl refl
  Option-cases (some a) = inr (a, refl)

  abbrev pub unwrap : A → Option A → A
  unwrap d none = d
  unwrap d (some a) = a

  abbrev pub length : List A → ℕ
  length [] = 0
  length (x ∷ xs) = suc (length xs)

  abbrev pub get_elem? : List A → ℕ → Option A
  get_elem? [] i = none
  get_elem? (x ∷ xs) zero = some x
  get_elem? (x ∷ xs) (suc i) = get_elem? xs i

  abbrev pub take : ℕ → List A → List A
  take zero xs = []
  take (suc n) [] = []
  take (suc n) (x ∷ xs) = x ∷ take n xs

  abbrev pub drop : ℕ → List A → List A
  drop zero xs = xs
  drop (suc n) [] = []
  drop (suc n) (x ∷ xs) = drop n xs

  take_nil : (n : ℕ) → take n [] ≡ []
  take_nil zero = refl
  take_nil (suc n) = refl

  pub take_add : (m n : ℕ) (xs : List A) → take m xs ++ take n (drop m xs) ≡ take (m + n) xs
  take_add zero n xs = let e : 0 + n ≡ n = omega arith in rw e refl
  take_add (suc m) n [] = take_nil n ∙ sym (take_nil (suc m + n))
  take_add (suc m) n (x ∷ xs) =
      let e : suc m + n ≡ suc (m + n) = omega arith in rw e (ap (◌∷◌ x) (take_add m n xs))

  pub length-drop : (m : ℕ) (xs : List A) → length (drop m xs) ≡ length xs - m
  length-drop zero xs = omega arith
  length-drop (suc m) [] = omega arith
  length-drop (suc m) (x ∷ xs) = omega (arith, length-drop m xs)

  pub take-length : (xs : List A) → take (length xs) xs ≡ xs
  take-length [] = refl
  take-length (x ∷ xs) = ap (◌∷◌ x) (take-length xs)

  pub length-append : (xs ys : List A) → length (xs ++ ys) ≡ length xs + length ys
  length-append [] ys = omega arith
  length-append (x ∷ xs) ys = omega (arith, length-append xs ys)

  pub append_nil : (xs : List A) → xs ++ [] ≡ xs
  append_nil [] = refl
  append_nil (x ∷ xs) = ap (◌∷◌ x) (append_nil xs)

-- Membership of an address in a list of addresses.
abbrev pub has : ℕ → List ℕ → Bool
has a [] = false
has a (x ∷ xs) = (a == x) || has a xs

infix 40 ◌∈◌ ◌∉◌
abbrev pub ◌∈◌ : ℕ → List ℕ → Type 0
a ∈ xs = has a xs ≡ true

abbrev pub ◌∉◌ : ℕ → List ℕ → Type 0
a ∉ xs = has a xs ≡ false

pub has-append : (a : ℕ) (xs ys : List ℕ) → has a (xs ++ ys) ≡ (has a xs || has a ys)
has-append a [] ys = refl
has-append a (x ∷ xs) ys = ground (arith, has-append a xs ys)

pub ne_of_mem : (a b : ℕ) (xs : List ℕ) → a ∈ xs → b ∉ xs → a ≢ b
ne_of_mem a b xs h k = λ e. ground (arith, ap (λ c. has c xs) e)

-- The first element, and the last one, with a default.
abbrev pub first : List ℕ → ℕ
first [] = 0
first (x ∷ xs) = x

abbrev pub last : ℕ → List ℕ → ℕ
last d [] = d
last d (x ∷ xs) = last x xs

pub last-append : (d p : ℕ) (xs : List ℕ) → last d (xs ++ p ∷ []) ≡ p
last-append d p [] = refl
last-append d p (x ∷ xs) = last-append x p xs

pub last-append_cons : (d p : ℕ) (xs ys : List ℕ) → last d (xs ++ p ∷ ys) ≡ last p ys
last-append_cons d p [] ys = refl
last-append_cons d p (x ∷ xs) ys = last-append_cons x p xs ys

pub last-mem : (x : ℕ) (xs : List ℕ) → last x xs ∈ x ∷ xs
last-mem x [] = ground arith
last-mem x (y ∷ xs) = ground (arith, last-mem y xs)

-- Facts on addresses that are not in a list.
module _ (a : ℕ) where
  pub ne_of_not-mem : (x : ℕ) (xs : List ℕ) → a ∉ x ∷ xs → a ≢ x
  ne_of_not-mem x xs h = ground arith

  pub not-mem_tail : (x : ℕ) (xs : List ℕ) → a ∉ x ∷ xs → a ∉ xs
  not-mem_tail x xs h = ground arith

  pub not-mem_left : (xs ys : List ℕ) → a ∉ xs ++ ys → a ∉ xs
  not-mem_left xs ys h = ground (arith, has-append a xs ys)

  pub not-mem_right : (xs ys : List ℕ) → a ∉ xs ++ ys → a ∉ ys
  not-mem_right xs ys h = ground (arith, has-append a xs ys)

  pub not-mem-append : (xs ys : List ℕ) → a ∉ xs → a ∉ ys → a ∉ xs ++ ys
  not-mem-append xs ys h k = ground (arith, has-append a xs ys)

  pub not-mem-cons : (x : ℕ) (xs : List ℕ) → a ≢ x → a ∉ xs → a ∉ x ∷ xs
  not-mem-cons x xs h k = ground arith

  pub not-mem_drop : (xs : List ℕ) (p : ℕ) (ys : List ℕ) → a ∉ xs ++ p ∷ ys → a ∉ xs ++ ys
  not-mem_drop xs p ys h =
      not-mem-append xs ys (not-mem_left xs (p ∷ ys) h)
        (not-mem_tail p ys (not-mem_right xs (p ∷ ys) h))

  pub ne-first : (xs : List ℕ) → a ≢ 0 → a ∉ xs → a ≢ first xs
  ne-first [] z h = z
  ne-first (x ∷ xs) z h = ne_of_not-mem x xs h

  pub ne-last : (x : ℕ) (xs : List ℕ) → a ∉ x ∷ xs → a ≢ last x xs
  ne-last x xs h = λ e. ne_of_mem (last x xs) a (x ∷ xs) (last-mem x xs) h (sym e)

  pub mem-append : (xs ys : List ℕ) → a ∈ xs ++ ys → (a ∈ xs) ⊎ (a ∈ ys)
  mem-append xs ys h = ground (arith, has-append a xs ys)

  pub mem_left : (xs ys : List ℕ) → a ∈ xs → a ∈ xs ++ ys
  mem_left xs ys h = ground (arith, has-append a xs ys)

  pub mem_right : (xs ys : List ℕ) → a ∈ ys → a ∈ xs ++ ys
  mem_right xs ys h = ground (arith, has-append a xs ys)

  pub eq_of_mem : (p : ℕ) → a ∈ p ∷ [] → a ≡ p
  eq_of_mem p h = ground arith

  pub mem_nil : a ∈ [] → ⊥
  mem_nil h = cc

abbrev pub Distinct : List ℕ → Type 0
Distinct [] = Unit {0}
Distinct (x ∷ xs) = (x ∉ xs) × Distinct xs

-- The list without the first occurrence of an address.
abbrev pub erase : ℕ → List ℕ → List ℕ
erase a [] = []
erase a (x ∷ xs) = if x == a then xs else x ∷ erase a xs

pub erase_out : (a : ℕ) (xs : List ℕ) → a ∉ xs → erase a xs ≡ xs
erase_out a [] h = refl
erase_out a (x ∷ xs) h = ground (arith, erase_out a xs)

-- A member splits its list.
pub split_at_mem :
    (a : ℕ) (l : List ℕ)
    → a ∈ l
    → (xs : List ℕ) × (ys : List ℕ) × (l ≡ xs ++ a ∷ ys) × (erase a l ≡ xs ++ ys)
split_at_mem a [] h = absurd (cc)
split_at_mem a (x ∷ l) h = elim (Bool-cases (x == a)) [
  | inl e ↦ ([], l, ap (λ y. y ∷ l) (==→eq x a e), rw e)
  | inr e ↦
      let (xs, ys, whole, less) = split_at_mem a l (ground arith) in
      (x ∷ xs, ys, ap (◌∷◌ x) whole, rw (e, less))
]

pub mem_of_mem-erase : (a b : ℕ) (xs : List ℕ) → a ∈ erase b xs → a ∈ xs
mem_of_mem-erase a b [] h = h
mem_of_mem-erase a b (x ∷ xs) h = ground (arith, mem_of_mem-erase a b xs)

pub mem-erase_ne : (a b : ℕ) (xs : List ℕ) → a ≢ b → a ∈ xs → a ∈ erase b xs
mem-erase_ne a b [] ne h = h
mem-erase_ne a b (x ∷ xs) ne h = ground (arith, mem-erase_ne a b xs)

pub length-erase : (b : ℕ) (xs : List ℕ) → length (erase b xs) ≤ length xs
length-erase b [] = omega arith
length-erase b (x ∷ xs) = ground (arith, length-erase b xs)

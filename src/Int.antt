-- ===== src/Int.antt =====
-- Signed integers over the native numbers, with the conversions that C++ makes: an unsigned
-- number to an `int`, and the division that rounds towards zero.
use batonlib.Base.{
  refl, ℕ, zero, suc, true, ◌≡◌, ◌↔◌, arith, ◌<◌, false, ◌==◌, ◌+◌, ◌-◌, ◌*◌, ◌/◌, ◌%◌, ◌^◌, Bool,
  ltb, if◌then◌else◌,
}

-- `negsuc n` is -(n + 1).
pub data ℤ : Type 0 where
  pos : ℕ → ℤ
  negsuc : ℕ → ℤ

-- The `int` with the low 32 bits of an unsigned number.
abbrev pub to_int : ℕ → ℤ
to_int n = if ltb (n % 2 ^ 32) (2 ^ 31) then pos (n % 2 ^ 32) else negsuc (2 ^ 32 - n % 2 ^ 32 - 1)

-- The conversion to an int, from a wider signed type.
pub narrow : ℤ → ℤ
narrow (pos n) = to_int n
narrow (negsuc n) = to_int (2 ^ 32 - suc n % 2 ^ 32)

-- The values of an int.
abbrev pub IsInt : ℤ → Type 0
IsInt (pos n) = n < 2 ^ 31
IsInt (negsuc n) = n < 2 ^ 31

pub narrow_lem : (v : ℤ) → IsInt v → narrow v ≡ v
unfolding narrow
narrow_lem (pos n) h =
    let w : n % 2 ^ 32 ≡ n = omega arith in
    let t : ltb (n % 2 ^ 32) (2 ^ 31) ≡ true = ground arith in rw (t, w) refl
narrow_lem (negsuc n) h =
    let w : (2 ^ 32 - suc n % 2 ^ 32) % 2 ^ 32 ≡ 2 ^ 32 - suc n = omega arith in
    let t : ltb ((2 ^ 32 - suc n % 2 ^ 32) % 2 ^ 32) (2 ^ 31) ≡ false = rw w (ground arith) in
    let back : 2 ^ 32 - (2 ^ 32 - suc n) - 1 ≡ n = omega arith in rw (t, w, back) refl

-- Division of an `int` by a positive constant.
abbrev pub quot : ℤ → ℕ → ℤ
quot (pos n) d = pos (n / d)
quot (negsuc n) d = if ltb (suc n) d then pos 0 else negsuc (suc n / d - 1)

-- Its remainder, with the sign of the dividend.
abbrev pub rem : ℤ → ℕ → ℤ
rem (pos n) d = pos (n % d)
rem (negsuc n) d = if suc n % d == 0 then pos 0 else negsuc (suc n % d - 1)

abbrev pub incr : ℤ → ℤ
incr (pos n) = pos (suc n)
incr (negsuc zero) = pos 0
incr (negsuc (suc n)) = negsuc n

abbrev pub decr : ℤ → ℤ
decr (pos zero) = negsuc 0
decr (pos (suc n)) = pos n
decr (negsuc n) = negsuc (suc n)

infix 50 ◌==ℤ◌
abbrev pub ◌==ℤ◌ : ℤ → ℤ → Bool
pos a ==ℤ pos b = a == b
negsuc a ==ℤ negsuc b = a == b
pos a ==ℤ negsuc b = false
negsuc a ==ℤ pos b = false

abbrev pub ltbℤ : ℤ → ℤ → Bool
ltbℤ (pos a) (pos b) = ltb a b
ltbℤ (negsuc a) (negsuc b) = ltb b a
ltbℤ (pos a) (negsuc b) = false
ltbℤ (negsuc a) (pos b) = true

pub ==ℤ_iff : (a b : ℤ) → ((a ==ℤ b) ≡ true) ↔ (a ≡ b)
==ℤ_iff (pos a) (pos b) = (λ h. ground arith, λ h. ground arith)
==ℤ_iff (negsuc a) (negsuc b) = (λ h. ground arith, λ h. ground arith)
==ℤ_iff (pos a) (negsuc b) = (λ h. cc, λ h. cc)
==ℤ_iff (negsuc a) (pos b) = (λ h. cc, λ h. cc)

-- A sum, and a product with a positive constant.
infixl 60 ◌+ℤ◌
abbrev pub ◌+ℤ◌ : ℤ → ℤ → ℤ
pos a +ℤ pos b = pos (a + b)
negsuc a +ℤ negsuc b = negsuc (suc (a + b))
pos a +ℤ negsuc b = if ltb b a then pos (a - suc b) else negsuc (b - a)
negsuc a +ℤ pos b = if ltb a b then pos (b - suc a) else negsuc (a - b)

abbrev pub scale : ℤ → ℕ → ℤ
scale (pos n) d = pos (n * d)
scale (negsuc n) d = negsuc (suc n * d - 1)

quot-scale : (k : ℤ) → quot (scale k 1000) 1000 ≡ k
quot-scale (pos n) = ground arith
quot-scale (negsuc n) = ground arith

-- Division and remainder make up the number again.
pub quot-rem : (n : ℤ) → scale (quot n 1000) 1000 +ℤ quot (scale (rem n 1000) 1000) 1000 ≡ n
quot-rem n =
    rw (quot-scale (rem n 1000)) (elim n [ pos a ↦ ground arith | negsuc a ↦ ground arith ])

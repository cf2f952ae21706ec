-- ===== src/LogStream/Digits.antt =====
-- The digits that `convert` emits are those of the number.
use mathlib.Core.List.{reverse, reverse-cons}
use mathlib.Core.Option
use batonlib.Base.{
  ℕ, zero, suc, ◌+◌, ◌-◌, ◌*◌, ◌/◌, ◌%◌, ◌<◌, ◌≤◌, ◌≡◌, refl, ◌∙◌, some, List, [], ◌∷◌, ◌++◌,
  length, ◌==◌, if◌then◌else◌, Bool-cases, inl, inr, ==→eq, ==→ne, ◌≢◌, last, arith,
}
use batonlib.Int.{ℤ, pos, negsuc, quot, rem, ◌==ℤ◌}
use batonlib.LogStream.{emit, zero_at}

abbrev pub magnitude : ℤ → ℕ
magnitude (pos n) = n
magnitude (negsuc n) = suc n

-- The reader of decimal digits, the first one first.
abbrev pub scan : ℕ → List ℕ → ℕ
scan acc [] = acc
scan acc (c ∷ cs) = scan (acc * 10 + (c - 48)) cs

pub scan-append :
    (acc : ℕ) (cs : List ℕ) (c : ℕ) → scan acc (cs ++ c ∷ []) ≡ scan acc cs * 10 + (c - 48)
scan-append acc [] c = refl
scan-append acc (d ∷ cs) c = scan-append (acc * 10 + (d - 48)) cs c

abbrev pub AreDigits : List ℕ → Type 0
AreDigits [] = Unit {0}
AreDigits (c ∷ cs) = (48 ≤ c) × (c ≤ 57) × AreDigits cs

pub AreDigits-append : (cs ds : List ℕ) → AreDigits cs → AreDigits ds → AreDigits (cs ++ ds)
AreDigits-append [] ds h k = k
AreDigits-append (c ∷ cs) ds (lo, hi, h) k = (lo, hi, AreDigits-append cs ds h k)

pub AreDigits-reverse : (cs : List ℕ) → AreDigits cs → AreDigits (reverse cs)
AreDigits-reverse [] h = tt
AreDigits-reverse (c ∷ cs) (lo, hi, h) =
    rw (reverse-cons c cs)
      (AreDigits-append (reverse cs) (c ∷ []) (AreDigits-reverse cs h) (lo, hi, tt))

magnitude-quot : (i : ℤ) → magnitude (quot i 10) ≡ magnitude i / 10
magnitude-quot (pos n) = refl
magnitude-quot (negsuc n) = ground arith

magnitude-rem : (i : ℤ) → magnitude (rem i 10) ≡ magnitude i % 10
magnitude-rem (pos n) = refl
magnitude-rem (negsuc n) = ground arith

==ℤ_zero : (i : ℤ) → (i ==ℤ pos 0) ≡ (magnitude i == 0)
==ℤ_zero (pos n) = refl
==ℤ_zero (negsuc n) = ground arith

zero_at_pos : (n : ℕ) → n < 10 → zero_at (pos n) ≡ 48 + n
unfolding zero_at
zero_at_pos zero h = refl
zero_at_pos (suc zero) h = refl
zero_at_pos (suc (suc zero)) h = refl
zero_at_pos (suc (suc (suc zero))) h = refl
zero_at_pos (suc (suc (suc (suc zero)))) h = refl
zero_at_pos (suc (suc (suc (suc (suc zero))))) h = refl
zero_at_pos (suc (suc (suc (suc (suc (suc zero)))))) h = refl
zero_at_pos (suc (suc (suc (suc (suc (suc (suc zero))))))) h = refl
zero_at_pos (suc (suc (suc (suc (suc (suc (suc (suc zero)))))))) h = refl
zero_at_pos (suc (suc (suc (suc (suc (suc (suc (suc (suc zero))))))))) h = refl
zero_at_pos (suc (suc (suc (suc (suc (suc (suc (suc (suc (suc n)))))))))) h = absurd (omega arith)

-- The table is symmetric, so a negative remainder is printed without its sign.
zero_at_negsuc : (n : ℕ) → suc n < 10 → zero_at (negsuc n) ≡ zero_at (pos (suc n))
unfolding zero_at
zero_at_negsuc zero h = refl
zero_at_negsuc (suc zero) h = refl
zero_at_negsuc (suc (suc zero)) h = refl
zero_at_negsuc (suc (suc (suc zero))) h = refl
zero_at_negsuc (suc (suc (suc (suc zero)))) h = refl
zero_at_negsuc (suc (suc (suc (suc (suc zero))))) h = refl
zero_at_negsuc (suc (suc (suc (suc (suc (suc zero)))))) h = refl
zero_at_negsuc (suc (suc (suc (suc (suc (suc (suc zero))))))) h = refl
zero_at_negsuc (suc (suc (suc (suc (suc (suc (suc (suc zero)))))))) h = refl
zero_at_negsuc (suc (suc (suc (suc (suc (suc (suc (suc (suc n))))))))) h = absurd (omega arith)

zero_at_lem : (i : ℤ) → magnitude i < 10 → zero_at i ≡ 48 + magnitude i
zero_at_lem (pos n) h = zero_at_pos n h
zero_at_lem (negsuc n) h = zero_at_negsuc n h ∙ zero_at_pos (suc n) h

-- One round, by the magnitude of the number.
emit_round :
    (fuel : ℕ) (i : ℤ)
    → emit (suc fuel) i ≡ (
        if magnitude i / 10 == 0
        then some ((48 + magnitude i % 10) ∷ [])
        else Option.map (◌∷◌ (48 + magnitude i % 10)) (emit fuel (quot i 10)))
unfolding emit
emit_round fuel i = rw (
  ==ℤ_zero (quot i 10),
  magnitude-quot i,
  zero_at_lem (rem i 10) (rw (magnitude-rem i) (omega arith)),
  magnitude-rem i,
)

-- Ten to the power of `f`.
abbrev pub tens : ℕ → ℕ
tens zero = 1
tens (suc f) = 10 * tens f

-- What the loop makes of a number of magnitude `n`, with fuel for `f` digits.
pub record Emitted (n f : ℕ) (ds : List ℕ) : Type 0 where
  pub value : scan 0 (reverse ds) ≡ n
  pub digits : AreDigits ds
  pub some_digit : 0 < length ds
  pub lead : 0 < n → last 0 ds ≢ 48
  pub alone : n ≡ 0 → length ds ≡ 1
  pub short : length ds ≤ f

one_digit : (n f : ℕ) → n / 10 ≡ 0 → Emitted n (suc f) ((48 + n % 10) ∷ [])
one_digit n f h = record {
  value = omega arith;
  digits = (omega arith, omega arith, tt);
  some_digit = omega arith;
  lead = λ some_n e. omega (arith, e, some_n, h);
  alone = λ z. omega arith;
  short = omega arith;
}

last_cons : (d e : ℕ) (ds : List ℕ) → 0 < length ds → last d ds ≡ last e ds
last_cons d e [] h = absurd (omega arith)
last_cons d e (x ∷ ds) h = refl

more_digits :
    (n f : ℕ) (ds : List ℕ)
    → n / 10 ≢ 0
    → Emitted (n / 10) f ds
    → Emitted n (suc f) ((48 + n % 10) ∷ ds)
more_digits n f ds more m = record {
  value =
      rw (reverse-cons (48 + n % 10) ds, scan-append 0 (reverse ds) (48 + n % 10), m.value)
        (omega arith);
  digits = (omega arith, omega arith, m.digits);
  some_digit = omega arith;
  lead = λ some_n e. m.lead (ground (arith, more)) (last_cons 0 (48 + n % 10) ds m.some_digit ∙ e);
  alone = λ z. absurd (more (omega (arith, z)));
  short = omega (arith, m.short);
}

-- Enough fuel gives the digits, the last one first.
pub emit_lem :
    (f : ℕ) (i : ℤ)
    → magnitude i < 10 * tens f
    → (ds : List ℕ) × (emit (suc f) i ≡ some ds) × Emitted (magnitude i) (suc f) ds
emit_lem zero i h =
    let last : magnitude i / 10 ≡ 0 = omega arith in
    ((48 + magnitude i % 10) ∷ [], emit_round zero i ∙ rw last, one_digit (magnitude i) zero last)
emit_lem (suc f) i h = elim (Bool-cases (magnitude i / 10 == 0)) [
  | inl last ↦ (
    (48 + magnitude i % 10) ∷ [],
    emit_round (suc f) i ∙ rw last,
    one_digit (magnitude i) (suc f) (==→eq (magnitude i / 10) 0 last),
  )
  | inr more ↦
      let (ds, e, m) = emit_lem f (quot i 10) (rw (magnitude-quot i) (omega arith)) in
      (
        (48 + magnitude i % 10) ∷ ds,
        emit_round (suc f) i ∙ rw (more, e),
        more_digits (magnitude i) (suc f) ds (==→ne (magnitude i / 10) 0 more)
            (rw (magnitude-quot i) at m),
      )
]

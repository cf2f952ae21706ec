-- ===== src/LogStream/Pointers.antt =====
-- `operator<<(const void*)` writes the digits over the "0x" that it has written before.
use mathlib.Core.List.{reverse, reverse-cons}
use batonlib.Base.{
  ℕ, zero, suc, ◌+◌, ◌-◌, ◌*◌, ◌/◌, ◌%◌, ◌<◌, ◌≤◌, ◌≡◌, refl, some, List, [], ◌∷◌, ◌++◌, length,
  arith, ◌==◌, leb, ==→eq, Bool-cases, inl, inr, if◌then◌else◌,
}
use batonlib.Bytes.{Bytes, put_bytes}
use batonlib.LogStream.{LogBuffer, hex_at, emit_hex}

-- The powers of sixteen.
abbrev pub sixteens : ℕ → ℕ
sixteens zero = 1
sixteens (suc f) = 16 * sixteens f

-- The reader of hexadecimal digits, the first one first.
abbrev pub hex_value : ℕ → ℕ
hex_value c = if leb c 57 then c - 48 else c - 55

abbrev pub scan_hex : ℕ → List ℕ → ℕ
scan_hex acc [] = acc
scan_hex acc (c ∷ cs) = scan_hex (acc * 16 + hex_value c) cs

scan_hex-append :
    (acc : ℕ) (cs : List ℕ) (c : ℕ)
    → scan_hex acc (cs ++ c ∷ []) ≡ scan_hex acc cs * 16 + hex_value c
scan_hex-append acc [] c = refl
scan_hex-append acc (d ∷ cs) c = scan_hex-append (acc * 16 + hex_value d) cs c

hex_at_lem : (n : ℕ) → n < 16 → hex_value (hex_at n) ≡ n
unfolding hex_at
hex_at_lem zero h = refl
hex_at_lem (suc zero) h = refl
hex_at_lem (suc (suc zero)) h = refl
hex_at_lem (suc (suc (suc zero))) h = refl
hex_at_lem (suc (suc (suc (suc zero)))) h = refl
hex_at_lem (suc (suc (suc (suc (suc zero))))) h = refl
hex_at_lem (suc (suc (suc (suc (suc (suc zero)))))) h = refl
hex_at_lem (suc (suc (suc (suc (suc (suc (suc zero))))))) h = refl
hex_at_lem (suc (suc (suc (suc (suc (suc (suc (suc zero)))))))) h = refl
hex_at_lem (suc (suc (suc (suc (suc (suc (suc (suc (suc zero))))))))) h = refl
hex_at_lem (suc (suc (suc (suc (suc (suc (suc (suc (suc (suc zero)))))))))) h = refl
hex_at_lem (suc (suc (suc (suc (suc (suc (suc (suc (suc (suc (suc zero))))))))))) h = refl
hex_at_lem (suc (suc (suc (suc (suc (suc (suc (suc (suc (suc (suc (suc zero)))))))))))) h = refl
hex_at_lem (suc (suc (suc (suc (suc (suc (suc (suc (suc (suc (suc (suc (suc zero))))))))))))) h =
    refl
hex_at_lem (suc (suc (suc (suc (suc (suc (suc (suc (suc (suc (suc (suc (suc (suc zero))))))))))))))
      h =
    refl
hex_at_lem
      (suc (suc (suc (suc (suc (suc (suc (suc (suc (suc (suc (suc (suc (suc (suc zero)))))))))))))))
      h =
    refl
hex_at_lem
      (suc
        (suc (suc (suc (suc (suc (suc (suc (suc (suc (suc (suc (suc (suc (suc (suc n))))))))))))))))
      h =
    absurd (omega arith)

-- What the loop makes of a number, with fuel for `f` digits.
pub record HexEmitted (n f : ℕ) (cs : List ℕ) : Type 0 where
  pub value : scan_hex 0 (reverse cs) ≡ n
  pub some_digit : 0 < length cs
  pub short : length cs ≤ f

one_hex : (n f : ℕ) → n / 16 ≡ 0 → HexEmitted n (suc f) (hex_at (n % 16) ∷ [])
one_hex n f h = record {
  value = omega (arith, hex_at_lem (n % 16) (omega arith));
  some_digit = omega arith;
  short = omega arith;
}

more_hex :
    (n f : ℕ) (cs : List ℕ) → HexEmitted (n / 16) f cs → HexEmitted n (suc f) (hex_at (n % 16) ∷ cs)
more_hex n f cs m = record {
  value =
      rw
        (
          reverse-cons (hex_at (n % 16)) cs,
          scan_hex-append 0 (reverse cs) (hex_at (n % 16)),
          m.value,
          hex_at_lem (n % 16) (omega arith),
        )
        (omega arith);
  some_digit = omega arith;
  short = omega (arith, m.short);
}

-- Enough fuel gives the digits, the last one first.
pub emit_hex_lem :
    (f n : ℕ)
    → n < 16 * sixteens f
    → (cs : List ℕ) × (emit_hex (suc f) n ≡ some cs) × HexEmitted n (suc f) cs
unfolding emit_hex
emit_hex_lem zero n h =
    let last : n / 16 ≡ 0 = omega arith in (hex_at (n % 16) ∷ [], rw last, one_hex n zero last)
emit_hex_lem (suc f) n h = elim (Bool-cases (n / 16 == 0)) [
  | inl last ↦ (hex_at (n % 16) ∷ [], rw last, one_hex n (suc f) (==→eq (n / 16) 0 last))
  | inr more ↦
      let (cs, e, m) = emit_hex_lem f (n / 16) (omega arith) in
      (hex_at (n % 16) ∷ cs, rw (more, e), more_hex n (suc f) cs m)
]

-- The memory before the digits are written.
prefixed : LogBuffer → Bytes
prefixed b = put_bytes b.data_ b.cur (48 ∷ 120 ∷ [])

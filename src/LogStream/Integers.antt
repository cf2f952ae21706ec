-- ===== src/LogStream/Integers.antt =====
-- What is printed for an integer reads back as that integer.
use mathlib.Core.List.{reverse, reverse-append, reverse-cons}
use mathlib.Core.Option
use batonlib.Base.{
  ℕ-cases, Option, none, Bool, false, not, ◌&&◌, ltb, first, last, ◌≢◌, sym, ℕ, zero, suc, ◌+◌, ◌^◌,
  ◌<◌, ◌≤◌, ◌≡◌, refl, ap, ◌∙◌, ◌⊎◌, true, some, List, [], ◌∷◌, ◌++◌, length, length-append, arith,
  ◌==◌, leb, ne→==, Bool-cases, inl, inr, if◌then◌else◌,
}
use batonlib.Int.{ℤ, pos, negsuc}
use batonlib.Bytes.{Bytes, length-reverse}
use batonlib.LogStream.{
  LogBuffer, ksmallbuffer, add, is_negative, finish, convert, numeric_room, format_integer,
  print_int,
}
use batonlib.LogStream.Buffer.{IsFit, Printed, numeric_room_lem, finish_text, finish_above}
use batonlib.LogStream.Digits.{magnitude, scan, AreDigits, AreDigits-reverse, Emitted, emit_lem}

-- The reader of a decimal number: digits, at least one of them and with no 0 before others, behind a
-- minus sign where the number is negative.
abbrev pub are_digits : List ℕ → Bool
are_digits [] = true
are_digits (c ∷ cs) = leb 48 c && (leb c 57 && are_digits cs)

abbrev pub number : List ℕ → Option ℕ
number [] = none
number (c ∷ cs) =
    if are_digits (c ∷ cs) && not (c == 48 && ltb 0 (length cs))
    then some (scan 0 (c ∷ cs))
    else none

abbrev pub negated : Option ℕ → Option ℤ
negated none = none
negated (some zero) = none
negated (some (suc n)) = some (negsuc n)

abbrev pub read : List ℕ → Option ℤ
read [] = none
read (c ∷ cs) = if c == 45 then negated (number cs) else Option.map pos (number (c ∷ cs))

are_digits_lem : (cs : List ℕ) → AreDigits cs → are_digits cs ≡ true
are_digits_lem [] h = refl
are_digits_lem (c ∷ cs) (lo, hi, h) = ground (arith, are_digits_lem cs h)

number_lem :
    (cs : List ℕ)
    → AreDigits cs
    → 0 < length cs
    → (first cs ≢ 48) ⊎ (length cs ≡ 1)
    → number cs ≡ some (scan 0 cs)
number_lem [] h some_digit lead = absurd (omega arith)
number_lem (c ∷ cs) h some_digit lead =
    let d : are_digits (c ∷ cs) ≡ true = are_digits_lem (c ∷ cs) h in
    let z : (c == 48 && ltb 0 (length cs)) ≡ false = elim lead [
      | inl ne ↦ ground (arith, ne)
      | inr one ↦ ground (arith, one)
    ] in
    rw (d, z) refl

first-append : (xs ys : List ℕ) → 0 < length xs → first (xs ++ ys) ≡ first xs
first-append [] ys h = absurd (omega arith)
first-append (x ∷ xs) ys h = refl

first-reverse : (x : ℕ) (xs : List ℕ) → first (reverse (x ∷ xs)) ≡ last x xs
first-reverse x [] = refl
first-reverse x (y ∷ ys) = rw (reverse-cons x (y ∷ ys)) (
    first-append (reverse (y ∷ ys)) (x ∷ []) (omega (arith, length-reverse (y ∷ ys)))
    ∙ first-reverse y ys)

-- The digits of a number, read in their order.
number-reverse : (n f : ℕ) (ds : List ℕ) → Emitted n f ds → number (reverse ds) ≡ some n
number-reverse n f [] m = absurd (omega (arith, m.some_digit))
number-reverse n f (d ∷ ds) m =
    let lead : (first (reverse (d ∷ ds)) ≢ 48) ⊎ (length (reverse (d ∷ ds)) ≡ 1) =
      elim (ℕ-cases n) [
        | inl z ↦ inr (length-reverse (d ∷ ds) ∙ m.alone z)
        | inr (k, e) ↦ inl (λ h. m.lead (omega (arith, e)) (sym (first-reverse d ds) ∙ h))
      ] in
    number_lem (reverse (d ∷ ds)) (AreDigits-reverse (d ∷ ds) m.digits)
      (omega (arith, length-reverse (d ∷ ds))) lead
    ∙ ap some m.value

read_digits : (cs : List ℕ) → AreDigits cs → 0 < length cs → read cs ≡ Option.map pos (number cs)
read_digits [] h some_digit = absurd (omega arith)
read_digits (c ∷ cs) (lo, hi, h) some_digit = rw (ne→== c 45 (λ e. omega arith)) refl

-- The characters that `convert` writes for a number, before it reverses them.
written : ℤ → List ℕ → List ℕ
written v ds = if is_negative v then ds ++ 45 ∷ [] else ds

read-written :
    (v : ℤ) (ds : List ℕ) (f : ℕ)
    → Emitted (magnitude v) f ds
    → read (reverse (written v ds)) ≡ some v
unfolding written
read-written (pos n) ds f m =
    read_digits (reverse ds) (AreDigits-reverse ds m.digits)
      (omega (arith, length-reverse ds, m.some_digit))
    ∙ ap (λ o. Option.map pos o) (number-reverse n f ds m)
read-written (negsuc n) ds f m =
    rw (reverse-append ds (45 ∷ []), number-reverse (suc n) f ds m) refl

length-written : (v : ℤ) (ds : List ℕ) → length (written v ds) ≤ suc (length ds)
unfolding written
length-written (pos n) ds = omega arith
length-written (negsuc n) ds = omega (arith, length-append ds (45 ∷ []))

-- What `convert` leaves.
record Converted (d : Bytes) (at_ : ℕ) (v : ℤ) (cs : List ℕ) : Type 0 where
  done : convert d at_ v ≡ some (finish d at_ cs, length cs)
  value : read (reverse cs) ≡ some v
  short : length cs ≤ 21

convert_lem :
    (d : Bytes) (at_ : ℕ) (v : ℤ) → magnitude v < 2 ^ 64 → (cs : List ℕ) × Converted d at_ v cs
unfolding convert written
convert_lem d at_ v h =
    let (ds, e, m) = emit_lem 19 v (omega arith) in
    (
      written v ds,
      record {
        done = rw (e, convert);
        value = read-written v ds 20 m;
        short = omega (arith, length-written v ds, m.short);
      },
    )

-- What is left after a number has been printed: its text, or nothing where there is no room.
pub record IntPrinted (b b' : LogBuffer) (v : ℤ) (cs : List ℕ) : Type 0 where
  pub value : read cs ≡ some v
  pub short : length cs ≤ 21
  pub printed : Printed b b' cs

-- The two ends of `print_int`.
abbrev pub Outcome : LogBuffer → ℤ → LogBuffer → Type 0
Outcome b v b' =
    ((ksmallbuffer < b.cur + 32) × (b' ≡ b))
    ⊎ ((b.cur + 32 ≤ ksmallbuffer) × (cs : List ℕ) × IntPrinted b b' v cs)

with_room :
    (v : ℤ) (b : LogBuffer)
    → IsFit b
    → b.cur + 32 ≤ ksmallbuffer
    → magnitude v < 2 ^ 64
    → (b' : LogBuffer) × (print_int v b ≡ some b') × Outcome b v b'
unfolding print_int format_integer add
with_room v b fit room small =
    let (cs, c) = convert_lem b.data_ b.cur v small in
    let test : numeric_room b ≡ true = numeric_room_lem b fit ∙ (ground arith) in
    (
      record { data_ = finish b.data_ b.cur cs; cur = b.cur + length cs },
      rw (test, c.done),
      inr (
        room,
        reverse cs,
        record {
          value = c.value;
          short = omega (arith, length-reverse cs, c.short);
          printed = record {
            text = finish_text b.data_ b.cur cs;
            fits = omega (arith, c.short);
            outside = λ i h. finish_above b.data_ b.cur cs i (omega (arith, c.short));
          };
        },
      ),
    )

-- Printing an integer of at most 64 bits ends. With 32 free bytes it writes a text of at most 21
-- characters behind what the buffer holds, and no byte outside the array; with fewer it changes nothing.
-- The text reads back as the integer, by a reader that asks for at least one digit, for no 0 before other
-- digits, and for a minus sign before a negative number only.
pub print_int_lem :
    (v : ℤ) (b : LogBuffer)
    → IsFit b
    → magnitude v < 2 ^ 64
    → (b' : LogBuffer) × (print_int v b ≡ some b') × Outcome b v b'
unfolding print_int format_integer
print_int_lem v b fit small = elim (Bool-cases (leb (b.cur + 32) ksmallbuffer)) [
  | inl room ↦ with_room v b fit (ground arith) small
  | inr full ↦ (b, rw (numeric_room_lem b fit ∙ full), inl (ground arith, refl))
]

-- ===== src/LogStream.antt =====
-- Batonlib/base/LogStream.h and LogStream.cpp: the buffer of a log line, and the printing of
-- numbers and texts to it.
pub mod Buffer
pub mod Digits
pub mod Integers
pub mod Pointers
mod Tests
use mathlib.Core.List.{reverse}
use mathlib.Core.Option
use batonlib.Base.{
  ℕ, zero, suc, ◌+◌, ◌-◌, ◌*◌, ◌/◌, ◌%◌, ◌^◌, Bool, true, false, Option, none, some, List, [], ◌∷◌,
  ◌++◌, length, get_elem?, take, leb, ltb, ◌==◌, if◌then◌else◌,
}
use batonlib.Int.{ℤ, pos, negsuc, quot, rem, ◌==ℤ◌}
use batonlib.Bytes.{Bytes, put_bytes, get_bytes}

-- `KSMALLBUFFER`
abbrev pub ksmallbuffer : ℕ
ksmallbuffer = 4000

-- The array `data_` and the offset of `cur_`.
pub record LogBuffer : Type 0 where
  pub data_ : Bytes
  pub cur : ℕ

abbrev pub contents : LogBuffer → List ℕ
contents b = get_bytes b.data_ 0 b.cur

-- The constructor; the array is not initialised.
unfoldable pub new_log_buffer : Bytes → LogBuffer
new_log_buffer d = record { data_ = d; cur = 0 }

abbrev pub avail : LogBuffer → ℤ
avail b =
    if leb b.cur ksmallbuffer then pos (ksmallbuffer - b.cur) else negsuc (b.cur - ksmallbuffer - 1)

pub add : ℕ → LogBuffer → LogBuffer
add len b = record b { cur = b.cur + len }

unfoldable pub reset : LogBuffer → LogBuffer
reset b = record b { cur = 0 }

pub bzero : LogBuffer → LogBuffer
bzero b = record b { data_ = λ i. if ltb i ksmallbuffer then 0 else b.data_ i }

-- The comparison of an `int` with a `size_t` is one of unsigned numbers.
abbrev to_size : ℤ → ℕ
to_size (pos n) = n
to_size (negsuc n) = 2 ^ 64 - 1 - n

pub append : List ℕ → LogBuffer → LogBuffer
append buf b =
    if ltb (length buf) (to_size (avail b))
    then record { data_ = put_bytes b.data_ b.cur buf; cur = b.cur + length buf }
    else b

-- `digits`, and `zero[lsd]` for a remainder `lsd` of either sign.
abbrev digits : List ℕ
digits =
    57 ∷ 56 ∷ 55 ∷ 54 ∷ 53 ∷ 52 ∷ 51 ∷ 50 ∷ 49 ∷ 48 ∷ 49 ∷ 50 ∷ 51 ∷ 52 ∷ 53 ∷ 54 ∷ 55 ∷ 56 ∷ 57
    ∷ []

abbrev byte_at : List ℕ → ℕ → ℕ
byte_at cs i = elim (get_elem? cs i) [ none ↦ 0 | some c ↦ c ]

zero_at : ℤ → ℕ
zero_at (pos n) = byte_at digits (9 + n)
zero_at (negsuc n) = byte_at digits (8 - n)

-- The loop of `convert`, the last digit first; `none` means that the fuel ran out.
pub emit : ℕ → ℤ → Option (List ℕ)
emit zero i = none
emit (suc fuel) i =
    let rest = emit fuel (quot i 10) in
    if quot i 10 ==ℤ pos 0
    then some (zero_at (rem i 10) ∷ [])
    else Option.map (◌∷◌ (zero_at (rem i 10))) rest

abbrev pub is_negative : ℤ → Bool
is_negative (pos n) = false
is_negative (negsuc n) = true

-- Twenty digits are enough for 64 bits.
abbrev pub convert_fuel : ℕ
convert_fuel = 20

-- The characters in the order in which they are written, then a NUL, then the reversal in place.
abbrev pub finish : Bytes → ℕ → List ℕ → Bytes
finish buf at cs = put_bytes (put_bytes buf at (cs ++ 0 ∷ [])) at (reverse cs)

-- `convert` to index `at`: the new bytes, and the length.
pub convert : Bytes → ℕ → ℤ → Option (Bytes × ℕ)
unfolding emit zero_at
convert buf at value = elim (emit convert_fuel value) [
  | none ↦ none
  | some ds ↦
      let cs = if is_negative value then ds ++ 45 ∷ [] else ds in some (finish buf at cs, length cs)
]

-- `buffer_.avail() >= kMaxNumericSize`
pub numeric_room : LogBuffer → Bool
numeric_room b = elim (avail b) [ pos n ↦ leb 32 n | negsuc n ↦ false ]

pub format_integer : ℤ → LogBuffer → Option LogBuffer
format_integer v b =
    if numeric_room b
    then Option.map (λ (d, len). add len (record b { data_ = d })) (convert b.data_ b.cur v)
    else some b

-- The `operator<<` for each type. A conversion to a wider integer keeps the value.
pub print_int : ℤ → LogBuffer → Option LogBuffer
print_int v = format_integer v

pub print_short : ℤ → LogBuffer → Option LogBuffer
print_short v = print_int v

pub print_bool : Bool → LogBuffer → LogBuffer
print_bool v = append (if v then 49 ∷ [] else 48 ∷ [])

unfoldable pub print_char : ℕ → LogBuffer → LogBuffer
print_char c = append (c ∷ [])

-- `none` is a null pointer, which is printed as "(null)".
unfoldable pub print_text : Option (List ℕ) → LogBuffer → LogBuffer
print_text none = append (40 ∷ 110 ∷ 117 ∷ 108 ∷ 108 ∷ 41 ∷ [])
print_text (some cs) = append cs

-- `operator<<(double)`, where `text` is what `snprintf` has to print:
-- it writes at most 31 characters and returns the length of all.
pub print_double : List ℕ → LogBuffer → LogBuffer
print_double text b =
    if numeric_room b
    then add (length text) (record b { data_ = put_bytes b.data_ b.cur (take 31 text ++ 0 ∷ []) })
    else b

abbrev digits_hex : List ℕ
digits_hex = 48 ∷ 49 ∷ 50 ∷ 51 ∷ 52 ∷ 53 ∷ 54 ∷ 55 ∷ 56 ∷ 57 ∷ 65 ∷ 66 ∷ 67 ∷ 68 ∷ 69 ∷ 70 ∷ []

hex_at : ℕ → ℕ
hex_at i = byte_at digits_hex i

pub emit_hex : ℕ → ℕ → Option (List ℕ)
emit_hex zero i = none
emit_hex (suc fuel) i =
    let rest = emit_hex fuel (i / 16) in
    if i / 16 == 0 then some (hex_at (i % 16) ∷ []) else Option.map (◌∷◌ (hex_at (i % 16))) rest

-- `operator<<(const void*)`: "0x" is written first, and the digits to the same place.
pub print_pointer : ℕ → LogBuffer → Option LogBuffer
print_pointer val b =
    if numeric_room b
    then Option.map
        (λ cs.
          add (length cs + 2)
            (record b { data_ = finish (put_bytes b.data_ b.cur (48 ∷ 120 ∷ [])) b.cur cs }))
        (emit_hex 16 val)
    else some b

-- ===== src/LogStream/Buffer.antt =====
-- The buffer never runs over its array.
use mathlib.Core.List.{reverse}
use batonlib.Base.{
  ℕ, ◌+◌, ◌-◌, ◌<◌, ◌≤◌, ◌≡◌, refl, sym, ap, ◌∙◌, ◌⊎◌, true, List, [], ◌∷◌, ◌++◌, length,
  length-append, arith, Bool-cases, inl, inr, ltb, leb, ltb→lt,
}
use batonlib.Bytes.{
  Bytes, put_bytes, get_bytes, put_bytes_above, get_bytes_behind, get_bytes_before, length-reverse,
}
use batonlib.LogStream.{LogBuffer, contents, ksmallbuffer, append, finish, numeric_room}

-- There is a byte left behind what is written.
abbrev pub IsFit : LogBuffer → Type 0
IsFit b = b.cur < ksmallbuffer

-- `b'` holds `cs` behind what `b` holds, and no byte outside the array is written.
pub record Printed (b b' : LogBuffer) (cs : List ℕ) : Type 0 where
  pub text : contents b' ≡ contents b ++ cs
  pub fits : IsFit b'
  pub outside : (i : ℕ) → ksmallbuffer ≤ i → b'.data_ i ≡ b.data_ i

abbrev pub Written : LogBuffer → List ℕ → LogBuffer → Type 0
Written b buf b' =
    ((b.cur + length buf < ksmallbuffer) × Printed b b' buf)
    ⊎ ((ksmallbuffer ≤ b.cur + length buf) × (b' ≡ b))

leb-fit : (b : LogBuffer) → IsFit b → leb b.cur ksmallbuffer ≡ true
leb-fit b fit = ground arith

-- `append` of a text that leaves a byte of the array copies it behind what is there, and one that is
-- longer changes nothing; in either case no byte outside the array is written.
pub append-Written : (buf : List ℕ) (b : LogBuffer) → IsFit b → Written b buf (append buf b)
unfolding append
append-Written buf b fit = elim (Bool-cases (ltb (length buf) (ksmallbuffer - b.cur))) [
  | inl room ↦
      let lt = ltb→lt (length buf) (ksmallbuffer - b.cur) room in
      rw (leb-fit b fit) (
        rw room (
          inl (
            omega arith,
            record {
              text = get_bytes_behind b.data_ b.cur buf;
              fits = omega arith;
              outside = λ i h. put_bytes_above b.data_ b.cur buf i (omega arith);
            },
          )))
  | inr full ↦ rw (leb-fit b fit) (rw full (inr (ground arith, refl)))
]

-- The room that a number is given.
pub numeric_room_lem : (b : LogBuffer) → IsFit b → numeric_room b ≡ leb (b.cur + 32) ksmallbuffer
unfolding numeric_room
numeric_room_lem b fit = rw (leb-fit b fit, numeric_room) (ground arith)

-- The text that is written and reversed in place.
pub finish_text :
    (d : Bytes) (at_ : ℕ) (cs : List ℕ)
    → get_bytes (finish d at_ cs) 0 (at_ + length cs) ≡ get_bytes d 0 at_ ++ reverse cs
finish_text d at_ cs = rw (sym (length-reverse cs)) (
    get_bytes_behind (put_bytes d at_ (cs ++ 0 ∷ [])) at_ (reverse cs)
    ∙ ap (λ bs. bs ++ reverse cs) (get_bytes_before d at_ (cs ++ 0 ∷ [])))

pub finish_above :
    (d : Bytes) (at_ : ℕ) (cs : List ℕ) (i : ℕ) → at_ + length cs < i → finish d at_ cs i ≡ d i
finish_above d at_ cs i h =
    put_bytes_above (put_bytes d at_ (cs ++ 0 ∷ [])) at_ (reverse cs) i
      (omega (arith, length-reverse cs))
    ∙ put_bytes_above d at_ (cs ++ 0 ∷ []) i (omega (arith, length-append cs (0 ∷ [])))

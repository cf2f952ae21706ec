-- ===== src/Bytes.antt =====
-- A `char` array: what is copied to it, and what a range of it holds.
use mathlib.Core.List.{reverse, reverse-cons}
use batonlib.Base.{
  ℕ, zero, suc, ◌+◌, ◌<◌, ◌≤◌, ◌≡◌, refl, ap, ◌∙◌, List, [], ◌∷◌, ◌++◌, length, length-append,
  arith,
}
use batonlib.Memory.{write, write_self, write_ne}

-- Each index of the array to its byte.
abbrev pub Bytes : Type 0
Bytes = ℕ → ℕ

-- `memcpy` of `cs` to index `i`.
unfoldable pub put_bytes : Bytes → ℕ → List ℕ → Bytes
put_bytes d i [] = d
put_bytes d i (c ∷ cs) = put_bytes (write d i c) (suc i) cs

-- The `n` bytes from index `i` on.
unfoldable pub get_bytes : Bytes → ℕ → ℕ → List ℕ
get_bytes d i zero = []
get_bytes d i (suc n) = d i ∷ get_bytes d (suc i) n

pub length-get_bytes : (d : Bytes) (i n : ℕ) → length (get_bytes d i n) ≡ n
unfolding get_bytes
length-get_bytes d i zero = refl
length-get_bytes d i (suc n) = ap suc (length-get_bytes d (suc i) n)

pub get_bytes-add :
    (d : Bytes) (i n k : ℕ) → get_bytes d i (n + k) ≡ get_bytes d i n ++ get_bytes d (i + n) k
unfolding get_bytes
get_bytes-add d i zero k =
    let e : 0 + k ≡ k = omega arith in let f : i + 0 ≡ i = omega arith in rw (e, f)
get_bytes-add d i (suc n) k =
    let e : suc n + k ≡ suc (n + k) = omega arith in
    let f : i + suc n ≡ suc i + n = omega arith in
    rw (e, f) (ap (◌∷◌ (d i)) (get_bytes-add d (suc i) n k))

pub put_bytes_below : (d : Bytes) (i : ℕ) (cs : List ℕ) (j : ℕ) → j < i → put_bytes d i cs j ≡ d j
unfolding put_bytes
put_bytes_below d i [] j h = refl
put_bytes_below d i (c ∷ cs) j h =
    put_bytes_below (write d i c) (suc i) cs j (omega arith) ∙ write_ne d i c j (λ e. omega arith)

pub put_bytes_above :
    (d : Bytes) (i : ℕ) (cs : List ℕ) (j : ℕ) → i + length cs ≤ j → put_bytes d i cs j ≡ d j
unfolding put_bytes
put_bytes_above d i [] j h = refl
put_bytes_above d i (c ∷ cs) j h =
    put_bytes_above (write d i c) (suc i) cs j (omega arith) ∙ write_ne d i c j (λ e. omega arith)

pub get_bytes-agree :
    (d d' : Bytes) (i n : ℕ)
    → ((j : ℕ) → i ≤ j → j < i + n → d j ≡ d' j)
    → get_bytes d i n ≡ get_bytes d' i n
unfolding get_bytes
get_bytes-agree d d' i zero h = refl
get_bytes-agree d d' i (suc n) h =
    rw (h i (omega arith) (omega arith))
      (ap (◌∷◌ (d' i)) (get_bytes-agree d d' (suc i) n (λ j a b. h j (omega arith) (omega arith))))

-- What is copied is read back.
pub get_bytes-put_bytes :
    (d : Bytes) (i : ℕ) (cs : List ℕ) → get_bytes (put_bytes d i cs) i (length cs) ≡ cs
unfolding get_bytes put_bytes
get_bytes-put_bytes d i [] = refl
get_bytes-put_bytes d i (c ∷ cs) =
    rw (put_bytes_below (write d i c) (suc i) cs i (omega arith), write_self d i c)
      (ap (◌∷◌ c) (get_bytes-put_bytes (write d i c) (suc i) cs))

-- The bytes up to an index, followed by what is copied there.
pub get_bytes_behind :
    (d : Bytes) (i : ℕ) (cs : List ℕ)
    → get_bytes (put_bytes d i cs) 0 (i + length cs) ≡ get_bytes d 0 i ++ cs
get_bytes_behind d i cs =
    let e : 0 + i ≡ i = omega arith in
    get_bytes-add (put_bytes d i cs) 0 i (length cs)
    ∙ rw (e, get_bytes-put_bytes d i cs)
        (ap (λ bs. bs ++ cs)
          (get_bytes-agree (put_bytes d i cs) d 0 i
            (λ j a b. put_bytes_below d i cs j (omega arith))))

-- What stands before the copy stays.
pub get_bytes_before :
    (d : Bytes) (i : ℕ) (cs : List ℕ) → get_bytes (put_bytes d i cs) 0 i ≡ get_bytes d 0 i
get_bytes_before d i cs =
    get_bytes-agree (put_bytes d i cs) d 0 i (λ j a b. put_bytes_below d i cs j (omega arith))

pub length-reverse : (cs : List ℕ) → length (reverse cs) ≡ length cs
length-reverse [] = refl
length-reverse (c ∷ cs) =
    rw (reverse-cons c cs) (omega (arith, length-append (reverse cs) (c ∷ []), length-reverse cs))

pub put_bytes_last :
    (d : Bytes) (i : ℕ) (cs : List ℕ) (c : ℕ) → put_bytes d i (cs ++ c ∷ []) (i + length cs) ≡ c
unfolding put_bytes
put_bytes_last d i [] c = let e : i + 0 ≡ i = omega arith in rw e (write_self d i c)
put_bytes_last d i (x ∷ cs) c =
    let e : i + suc (length cs) ≡ suc i + length cs = omega arith in
    rw e (put_bytes_last (write d i x) (suc i) cs c)

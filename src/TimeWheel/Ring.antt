-- ===== src/TimeWheel/Ring.antt =====
-- What a time wheel holds: a list of items for each slot, each item in the slot of its deadline.
use batonlib.Base.{
  ℕ, zero, suc, ◌+◌, ◌-◌, ◌%◌, ◌/◌, ltb, ltb→lt, ◌<◌, ◌≤◌, ◌≡◌, refl, ◌≢◌, sym, ◌∙◌, ap, Option,
  none, some, List, [], ◌∷◌, ◌∈◌, ◌∉◌, length, get_elem?, arith, ◌*◌, Bool-cases, inl, inr, ==→eq,
  ==→ne, ◌==◌, if◌then◌else◌,
}
use batonlib.Memory.{Ptr, null, Memory, ok}
use batonlib.Link.{IsLink}
use batonlib.Link.Frame.{Same, IsLink-frame, not-mem_of_t_link, Chain-t_link}
use batonlib.TimeWheel.{TimeWheel, slot, slot_index, u64_mod}
use native.Mathlib.Nat.{mod-lt, mod-eq_of_lt, div-add-mod, add-mod_right}

-- The items of each slot.
abbrev pub Contents : Type 0
Contents = ℕ → List Ptr

abbrev pub element : Option Ptr → Ptr
element none = null
element (some l) = l

abbrev pub link_at : TimeWheel → ℕ → Ptr
link_at tw i = element (get_elem? tw.time_wheel i)

-- The links of the wheel are distinct and stand for the lists `q`.
pub record IsWheel (m : Memory) (tw : TimeWheel) (q : Contents) : Type 0 where
  pub positive : 0 < tw.w_size
  pub width : length tw.time_wheel ≡ tw.w_size
  pub links : (i : ℕ) → i < tw.w_size → IsLink m (link_at tw i) (q i)
  pub distinct : (i j : ℕ) → i < tw.w_size → j < tw.w_size → link_at tw i ≡ link_at tw j → i ≡ j

get_elem?-in :
    (ls : List Ptr) (i : ℕ) → i < length ls → get_elem? ls i ≡ some (element (get_elem? ls i))
get_elem?-in [] i h = absurd (omega arith)
get_elem?-in (x ∷ ls) zero h = refl
get_elem?-in (x ∷ ls) (suc i) h = get_elem?-in ls i (omega arith)

slot-some :
    (tw : TimeWheel) (i : ℕ) (m : Memory) (l : Ptr)
    → get_elem? tw.time_wheel i ≡ some l
    → slot tw i m ≡ ok l m
unfolding slot
slot-some tw i m l e = rw (e, slot)

module _ {m : Memory} {tw : TimeWheel} {q : Contents} (is : IsWheel m tw q) where
  -- The vector is read within its bounds.
  pub slot_lem : (i : ℕ) → i < tw.w_size → slot tw i m ≡ ok (link_at tw i) m
  slot_lem i h = slot-some tw i m _ (get_elem?-in tw.time_wheel i (rw is.width h))

  -- Two slots hold different items.
  pub apart : (i j : ℕ) (a : Ptr) → i < tw.w_size → j < tw.w_size → i ≢ j → a ∈ q i → a ∉ q j
  apart i j a hi hj ne h =
      not-mem_of_t_link m (link_at tw j) null (q j) a (is.links j hj).chain (λ e. ne (
        is.distinct i j hi hj
          (sym (Chain-t_link m (link_at tw i) null (q i) a (is.links i hi).chain h) ∙ e)))

  -- Nor does a link outside the wheel share one.
  pub not-mem_of_link :
      {ret : Ptr} {rs : List Ptr}
      → IsLink m ret rs
      → ((j : ℕ) → j < tw.w_size → ret ≢ link_at tw j)
      → (i : ℕ) (a : Ptr) → i < tw.w_size
      → a ∈ rs
      → a ∉ q i
  not-mem_of_link {ret} {rs} link outside i a hi there =
      not-mem_of_t_link m (link_at tw i) null (q i) a (is.links i hi).chain
        (λ e. outside i hi (sym (Chain-t_link m ret null rs a link.chain there) ∙ e))

-- `q` with the list of slot `i` replaced.
abbrev pub put_at : Contents → ℕ → List Ptr → Contents
put_at q i xs j = if j == i then xs else q j

-- A step that touches the link of slot `i` and links outside the wheel.
pub IsWheel-put_at :
    (m m' : Memory) (tw : TimeWheel) (q : Contents) (ls ys xs : List Ptr) (i : ℕ)
    → IsWheel m tw q
    → Same m m' ls ys
    → ((j : ℕ) → j < tw.w_size → j ≢ i → (link_at tw j ∉ ls) × ((a : Ptr) → a ∈ q j → a ∉ ys))
    → IsLink m' (link_at tw i) xs
    → IsWheel m' tw (put_at q i xs)
IsWheel-put_at m m' tw q ls ys xs i is s others here = record {
  positive = is.positive;
  width = is.width;
  links = λ j h. elim (Bool-cases (j == i)) [
    | inl e ↦ rw (e, ==→eq j i e) here
    | inr e ↦
        let other = others j h (==→ne j i e) in
        rw e (IsLink-frame (link_at tw j) (q j) s other.0 other.1 (is.links j h))
  ];
  distinct = is.distinct;
}

-- Each item stands in the slot of its deadline, and the deadlines lie within one turn.
abbrev pub Due : (Ptr → ℕ) → TimeWheel → Contents → Type 0
Due expire tw q =
    (i : ℕ) (a : Ptr)
    → i < tw.w_size
    → a ∈ q i
    → (tw.w_start ≤ expire a)
      × (expire a < tw.w_start + tw.w_size)
      × (i ≡ slot_index tw (expire a - tw.w_start))

-- The index does not come near the end of its 64 bits.
abbrev pub HasRoom : TimeWheel → Type 0
HasRoom tw = (tw.w_index + 2 * tw.w_size < u64_mod) × (tw.w_start + tw.w_size < u64_mod)

pub slot_index-lt : (tw : TimeWheel) (k : ℕ) → 0 < tw.w_size → slot_index tw k < tw.w_size
unfolding slot_index
slot_index-lt tw k h = mod-lt _ h

mul_mono : (a b w : ℕ) → a ≤ b → w * a ≤ w * b
mul_mono a b w h = grind arith

same_multiple :
    (a b w r : ℕ) → w * a + r ≤ w * b + r → w * b + r < w * a + r + w → w * a + r ≡ w * b + r
same_multiple a b w r h k = elim (Bool-cases (ltb a b)) [
  | inl e ↦ absurd (omega (arith, mul_mono (suc a) b w (ltb→lt a b e)))
  | inr e ↦ let le : b ≤ a = ground arith in omega (arith, mul_mono b a w le)
]

mod-injective : (x y w : ℕ) → x ≤ y → y < x + w → x % w ≡ y % w → x ≡ y
mod-injective x y w h k e =
    let px = div-add-mod x w in
    let py = div-add-mod y w in
    omega (arith, same_multiple (x / w) (y / w) w (x % w) (omega arith) (omega arith))

-- With room, the index does not wrap round.
pub slot_index_lem :
    (tw : TimeWheel) (k : ℕ)
    → HasRoom tw
    → k < tw.w_size
    → slot_index tw k ≡ (tw.w_index + k) % tw.w_size
unfolding slot_index
slot_index_lem tw k room h = rw (mod-eq_of_lt {n = tw.w_index + k} {m = u64_mod} (omega arith))

slot_index_ordered :
    (tw : TimeWheel) (j k : ℕ)
    → HasRoom tw
    → k < tw.w_size
    → j ≤ k
    → slot_index tw j ≡ slot_index tw k
    → j ≡ k
slot_index_ordered tw j k room hk le e =
    let same = sym (slot_index_lem tw j room (omega arith)) ∙ e ∙ slot_index_lem tw k room hk in
    omega (
      arith,
      mod-injective (tw.w_index + j) (tw.w_index + k) tw.w_size (omega arith) (omega arith) same,
    )

-- Within one turn, two deadlines with the same slot are equal.
pub slot_index-injective :
    (tw : TimeWheel) (j k : ℕ)
    → HasRoom tw
    → j < tw.w_size
    → k < tw.w_size
    → slot_index tw j ≡ slot_index tw k
    → j ≡ k
slot_index-injective tw j k room hj hk e = elim (Bool-cases (ltb k j)) [
  | inl h ↦ let lt = ltb→lt k j h in sym (slot_index_ordered tw k j room hj (omega arith) (sym e))
  | inr h ↦ slot_index_ordered tw j k room hk (ground arith) e
]

-- After a whole turn the slots repeat.
pub slot_index_turn : (tw : TimeWheel) → HasRoom tw → slot_index tw tw.w_size ≡ slot_index tw 0
unfolding slot_index
slot_index_turn tw room =
    rw
      (
        mod-eq_of_lt {n = tw.w_index + tw.w_size} {m = u64_mod} (omega arith),
        mod-eq_of_lt {n = tw.w_index + 0} {m = u64_mod} (omega arith),
      )
      (add-mod_right tw.w_index tw.w_size ∙ ap (λ x. x % tw.w_size) (omega arith))

-- The contents matter within the wheel only.
pub IsWheel-agree :
    (m : Memory) (tw : TimeWheel) (q r : Contents)
    → ((i : ℕ) → i < tw.w_size → q i ≡ r i)
    → IsWheel m tw q
    → IsWheel m tw r
IsWheel-agree m tw q r same is = record {
  positive = is.positive;
  width = is.width;
  links = λ i h. rw (← same i h) (is.links i h);
  distinct = is.distinct;
}

-- A step away from the wheel's links and items.
pub IsWheel-frame :
    (m m' : Memory) (tw : TimeWheel) (q : Contents) (ls ys : List Ptr)
    → Same m m' ls ys
    → ((j : ℕ) → j < tw.w_size → (link_at tw j ∉ ls) × ((a : Ptr) → a ∈ q j → a ∉ ys))
    → IsWheel m tw q
    → IsWheel m' tw q
IsWheel-frame m m' tw q ls ys s others is = record {
  positive = is.positive;
  width = is.width;
  links = λ j h. IsLink-frame (link_at tw j) (q j) s (others j h).0 (others j h).1 (is.links j h);
  distinct = is.distinct;
}

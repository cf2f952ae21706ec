-- ===== src/TimeWheel/Take/Expired.antt =====
-- The items of the slots that the clock has passed, and the contents that stay.
use batonlib.Base.{
  ℕ, zero, suc, ◌+◌, ◌-◌, ◌<◌, ◌≤◌, ◌≡◌, ◌≢◌, ap, ◌∙◌, ◌↔◌, inl, inr, List, [], ◌∷◌, ◌++◌, ◌∈◌,
  arith, ◌==◌, Bool-cases, ==→eq, ==→ne, mem-append, mem_left, mem_right, mem_nil, ne→==,
}
use batonlib.Memory.{Ptr}
use batonlib.TimeWheel.{TimeWheel, slot_index}
use batonlib.TimeWheel.Ring.{Contents, HasRoom, put_at, slot_index-lt, slot_index-injective}

-- From slot `i` on, `n` slots are emptied.
unfoldable pub taken : TimeWheel → Contents → ℕ → ℕ → List Ptr
taken tw q i zero = []
taken tw q i (suc n) = q (slot_index tw i) ++ taken tw (put_at q (slot_index tw i) []) (suc i) n

unfoldable pub kept : TimeWheel → Contents → ℕ → ℕ → Contents
kept tw q i zero = q
kept tw q i (suc n) = kept tw (put_at q (slot_index tw i) []) (suc i) n

abbrev pub InWheel : TimeWheel → Contents → Ptr → Type 0
InWheel tw q a = (j : ℕ) × (j < tw.w_size) × (a ∈ q j)

-- Deadlines in their order.
abbrev pub IsOrdered : (Ptr → ℕ) → List Ptr → Type 0
IsOrdered e [] = Unit {0}
IsOrdered e (x ∷ xs) = ((a : Ptr) → a ∈ xs → e x ≤ e a) × IsOrdered e xs

IsOrdered-append :
    (e : Ptr → ℕ) (k : ℕ) (xs ys : List Ptr)
    → ((a : Ptr) → a ∈ xs → e a ≡ k)
    → ((a : Ptr) → a ∈ ys → k ≤ e a)
    → IsOrdered e ys
    → IsOrdered e (xs ++ ys)
IsOrdered-append e k [] ys same above o = o
IsOrdered-append e k (x ∷ xs) ys same above o =
    let here : e x ≡ k = same x (ground arith) in
    (
      λ a h. elim (mem-append a xs ys h) [
        | inl l ↦ omega (arith, same a (ground arith))
        | inr r ↦ omega (arith, above a r)
      ],
      IsOrdered-append e k xs ys (λ a h. same a (ground arith)) above o,
    )

mem-put_at_nil : (q : Contents) (s j : ℕ) (a : Ptr) → a ∈ put_at q s [] j → (j ≢ s) × (a ∈ q j)
mem-put_at_nil q s j a h = elim (Bool-cases (j == s)) [
  | inl e ↦ absurd (mem_nil a (rw e at h))
  | inr e ↦ (==→ne j s e, rw e at h)
]

put_at_nil-mem : (q : Contents) (s j : ℕ) (a : Ptr) → j ≢ s → a ∈ q j → a ∈ put_at q s [] j
put_at_nil-mem q s j a ne h = rw (ne→== j s ne) h

-- Deadlines from `w_start + i` on: what the wheel holds when the first `i` slots are emptied.
abbrev pub DueFrom : (Ptr → ℕ) → TimeWheel → Contents → ℕ → Type 0
DueFrom e tw q i =
    (j : ℕ) (a : Ptr)
    → j < tw.w_size
    → a ∈ q j
    → (tw.w_start + i ≤ e a)
      × (e a < tw.w_start + tw.w_size)
      × (j ≡ slot_index tw (e a - tw.w_start))

module _ (e : Ptr → ℕ) (tw : TimeWheel) (room : HasRoom tw) (positive : 0 < tw.w_size) where
  -- Slot `i` holds the items that are due at tick `i`.
  due_at :
      (q : Contents) (i : ℕ) (a : Ptr)
      → i < tw.w_size
      → DueFrom e tw q i
      → a ∈ q (slot_index tw i)
      → e a ≡ tw.w_start + i
  due_at q i a hi due h =
      let (lo, up, slot) = due (slot_index tw i) a (slot_index-lt tw i positive) h in
      omega (arith, slot_index-injective tw i (e a - tw.w_start) room hi (omega arith) slot)

  DueFrom-suc :
      (q : Contents) (i : ℕ)
      → i < tw.w_size
      → DueFrom e tw q i
      → DueFrom e tw (put_at q (slot_index tw i) []) (suc i)
  DueFrom-suc q i hi due j a hj h =
      let (ne, old) = mem-put_at_nil q (slot_index tw i) j a h in
      let (lo, up, slot) = due j a hj old in
      let later : e a ≢ tw.w_start + i = λ k. ne (slot ∙ ap (slot_index tw) (omega (arith, k))) in
      (omega (arith, later), up, slot)

  pub mem-taken :
      (n i : ℕ) (q : Contents) (a : Ptr)
      → i + n ≤ tw.w_size
      → DueFrom e tw q i
      → a ∈ taken tw q i n
      → (e a < tw.w_start + i + n) × InWheel tw q a
  unfolding taken
  mem-taken zero i q a hn due h = absurd (mem_nil a h)
  mem-taken (suc n) i q a hn due h =
      let s = slot_index tw i in
      elim (mem-append a (q s) (taken tw (put_at q s []) (suc i) n) h) [
        | inl l ↦
            (omega (arith, due_at q i a (omega arith) due l), (s, slot_index-lt tw i positive, l))
        | inr r ↦
            let (lt, (j, hj, there)) =
              mem-taken n (suc i) (put_at q s []) a (omega arith)
                (DueFrom-suc q i (omega arith) due) r in
            (omega (arith, lt), (j, hj, (mem-put_at_nil q s j a there).1))
      ]

  pub taken-mem :
      (n i : ℕ) (q : Contents) (j : ℕ) (a : Ptr)
      → i + n ≤ tw.w_size
      → DueFrom e tw q i
      → j < tw.w_size
      → a ∈ q j
      → e a < tw.w_start + i + n
      → a ∈ taken tw q i n
  unfolding taken
  taken-mem zero i q j a hn due hj h lt = absurd (omega (arith, (due j a hj h).0))
  taken-mem (suc n) i q j a hn due hj h lt =
      let s = slot_index tw i in
      let rest = taken tw (put_at q s []) (suc i) n in
      elim (Bool-cases (j == s)) [
        | inl k ↦ mem_left a (q s) rest (rw (==→eq j s k) at h)
        | inr k ↦ mem_right a (q s) rest (
            taken-mem n (suc i) (put_at q s []) j a (omega arith)
              (DueFrom-suc q i (omega arith) due) hj (put_at_nil-mem q s j a (==→ne j s k) h)
              (omega arith))
      ]

  pub mem-kept :
      (n i : ℕ) (q : Contents) (j : ℕ) (a : Ptr)
      → i + n ≤ tw.w_size
      → DueFrom e tw q i
      → j < tw.w_size
      → (a ∈ kept tw q i n j) ↔ ((a ∈ q j) × (tw.w_start + i + n ≤ e a))
  unfolding kept
  mem-kept zero i q j a hn due hj = (λ h. (h, omega (arith, (due j a hj h).0)), λ h. h.0)
  mem-kept (suc n) i q j a hn due hj =
      let s = slot_index tw i in
      let rest =
        mem-kept n (suc i) (put_at q s []) j a (omega arith) (DueFrom-suc q i (omega arith) due)
          hj in
      (
        λ h.
            let (there, late) = rest.0 h in ((mem-put_at_nil q s j a there).1, omega (arith, late)),
        λ (h, late).
            let ne : j ≢ s =
              λ k. absurd (omega (arith, due_at q i a (omega arith) due (rw k at h))) in
            rest.1 (put_at_nil-mem q s j a ne h, omega (arith, late)),
      )

  pub taken-IsOrdered :
      (n i : ℕ) (q : Contents) → i + n ≤ tw.w_size → DueFrom e tw q i → IsOrdered e (taken tw q i n)
  unfolding taken
  taken-IsOrdered zero i q hn due = tt
  taken-IsOrdered (suc n) i q hn due =
      let s = slot_index tw i in
      let next = DueFrom-suc q i (omega arith) due in
      IsOrdered-append e (tw.w_start + i) (q s) _ (λ a h. due_at q i a (omega arith) due h)
        (λ a h.
          let (_, (j, hj, there)) = mem-taken n (suc i) (put_at q s []) a (omega arith) next h in
          omega (arith, (next j a hj there).0))
        (taken-IsOrdered n (suc i) (put_at q s []) (omega arith) next)

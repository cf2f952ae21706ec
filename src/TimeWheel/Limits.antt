-- ===== src/TimeWheel/Limits.antt =====
-- An item whose deadline is exactly one turn of the time wheel away.
use batonlib.Base.{
  ℕ, zero, suc, ◌+◌, ◌-◌, ◌^◌, ◌<◌, ◌≤◌, ◌≡◌, refl, true, List, [], ◌∷◌, ◌++◌, ◌∈◌, ◌∉◌, arith,
  mem_left, mem_right, length, ==_refl, ◌==◌, Bool-cases, inl, inr, not-mem-cons, ne_of_mem,
  length-append,
}
use batonlib.Memory.{Ptr, Memory, valid, and_then}
use batonlib.Memory.Returns
use batonlib.Memory.Returns.{Returns}
use batonlib.Link.{IsLink}
use batonlib.Link.Frame.{IsLink-frame}
use batonlib.TimeWheel.{TimeWheel, slot_index, add_timeout, take_all_timeout}
use batonlib.TimeWheel.Ring.{
  Contents, link_at, not-mem_of_link, IsWheel, HasRoom, put_at, slot_index-lt,
}
use batonlib.TimeWheel.Add.{add_full_turn}
use batonlib.TimeWheel.Take.{IsOutside, Enough, take_all_timeout_moves}
use batonlib.TimeWheel.Take.Expired.{taken}
use batonlib.TimeWheel.Take.Exact.{rounds, rounds_cases, expired}

-- The first slot is emptied at every call.
first-taken :
    (tw : TimeWheel) (q : Contents) (n : ℕ) (a : Ptr)
    → 0 < n
    → a ∈ q (slot_index tw 0)
    → a ∈ taken tw q 0 n
unfolding taken
first-taken tw q zero a h there = absurd (omega arith)
first-taken tw q (suc n) a h there = mem_left a (q (slot_index tw 0)) _ there

rounds_positive : (tw : TimeWheel) (now : ℕ) → 0 < tw.w_size → tw.w_start ≤ now → 0 < rounds tw now
rounds_positive tw now h k = omega (arith, rounds_cases tw now k)

Enough-snoc :
    (fuel : ℕ) (tw : TimeWheel) (q : Contents) (s : ℕ) (p : Ptr)
    → ((j : ℕ) → j < tw.w_size → suc (length (q j)) < fuel)
    → s < tw.w_size
    → Enough fuel tw (put_at q s (q s ++ p ∷ []))
Enough-snoc fuel tw q s p enough hs j h = elim (Bool-cases (j == s)) [
  | inl e ↦ rw e (omega (arith, enough s hs, length-append (q s) (p ∷ [])))
  | inr e ↦ rw e (omega (arith, enough j h))
]

-- An item added with a deadline a whole turn after the wheel's time is accepted, and the next call
-- of `take_all_timeout` moves it to the result, however early that call is made.
pub full_turn_expires_early :
    (fuel : ℕ) (m : Memory) (tw : TimeWheel) (q : Contents) (now : ℕ) (p ret : Ptr) (rs : List Ptr)
    → tw.isms ≡ true
    → HasRoom tw
    → IsWheel m tw q
    → IsLink m ret rs
    → IsOutside tw ret
    → valid m.item_live p ≡ true
    → p ∉ rs
    → ((j : ℕ) → j < tw.w_size → (p ∉ q j) × (suc (length (q j)) < fuel))
    → m.expire_time p ≡ tw.w_start + tw.w_size
    → tw.w_start ≤ now
    → now < tw.w_start + (2 ^ 31 - 1)
    → Returns
        (and_then (add_timeout tw p m) (λ _. take_all_timeout fuel tw now ret))
        (λ tw' m'. (out : List Ptr) × IsLink m' ret (rs ++ out) × (p ∈ out))
full_turn_expires_early fuel m tw q now p ret rs ms room is link outside v new free far later soon =
    let s = slot_index tw 0 in
    let h = slot_index-lt tw 0 is.positive in
    let q' = put_at q s (q s ++ p ∷ []) in
    let there : p ∈ q' s = rw (==_refl s) (mem_right p (q s) (p ∷ []) (ground arith)) in
    Returns.bind (add_timeout tw p m) _ _ _
      (add_full_turn is p ms room v (λ i hi. (free i hi).0) far)
      (λ r m' (_, is', same).
        let link' =
          IsLink-frame ret rs same (not-mem-cons ret (link_at tw s) [] (outside s h) refl)
            (λ a there.
              not-mem-cons a p (q s) (ne_of_mem a p rs there new)
                (not-mem_of_link is link outside s a h there))
            link in
        Returns.mono (take_all_timeout fuel tw now ret m') _ _
          (take_all_timeout_moves fuel m' tw q' now ret rs ms is' link' outside
            (Enough-snoc fuel tw q s p (λ j hj. (free j hj).1) h) later soon)
          (λ tw' m'' (_, t). (
            expired tw q' now,
            t.link,
            first-taken tw q' (rounds tw now) p (rounds_positive tw now is.positive later) there,
          )))

-- ===== src/TimeWheel/Take/Exact.antt =====
-- The slots that the clock has passed hold exactly the items whose deadline has passed.
use batonlib.Base.{ℕ, suc, ◌+◌, ◌-◌, ◌<◌, ◌≤◌, ◌≡◌, ◌↔◌, ◌⊎◌, List, ◌∈◌, arith, ltb, if◌then◌else◌}
use batonlib.Memory.{Ptr}
use batonlib.TimeWheel.{TimeWheel}
use batonlib.TimeWheel.Ring.{Contents, Due, HasRoom}
use batonlib.TimeWheel.Take.Expired.{
  taken, kept, InWheel, IsOrdered, DueFrom, mem-taken, taken-mem, mem-kept, taken-IsOrdered,
}

-- The slots that are emptied at `now`: at most all of them.
abbrev pub rounds : TimeWheel → ℕ → ℕ
rounds tw now = if ltb tw.w_size (suc (now - tw.w_start)) then tw.w_size else suc (now - tw.w_start)

abbrev pub expired : TimeWheel → Contents → ℕ → List Ptr
expired tw q now = taken tw q 0 (rounds tw now)

abbrev pub pending : TimeWheel → Contents → ℕ → Contents
pending tw q now = kept tw q 0 (rounds tw now)

-- `out` holds the items that are due at `now`, in the order of their deadlines, and `rest` the others.
pub record Expires (e : Ptr → ℕ) (tw : TimeWheel) (q : Contents) (now : ℕ) (out : List Ptr)
    (rest : Contents) : Type 0 where
  pub exactly : (a : Ptr) → (a ∈ out) ↔ ((e a ≤ now) × InWheel tw q a)
  pub ordered : IsOrdered e out
  pub others : (j : ℕ) (a : Ptr) → j < tw.w_size → (a ∈ rest j) ↔ ((now < e a) × (a ∈ q j))

pub rounds_cases :
    (tw : TimeWheel) (now : ℕ)
    → tw.w_start ≤ now
    → ((rounds tw now ≡ tw.w_size) × (tw.w_start + tw.w_size ≤ now))
      ⊎ ((tw.w_start + rounds tw now ≡ suc now) × (rounds tw now ≤ tw.w_size))
rounds_cases tw now h = ground arith

module _ (e : Ptr → ℕ) (tw : TimeWheel) (q : Contents) (now : ℕ) (room : HasRoom tw)
    (positive : 0 < tw.w_size) (due : Due e tw q) (later : tw.w_start ≤ now) where
  due_from : DueFrom e tw q 0
  due_from j a hj h = let (lo, up, slot) = due j a hj h in (omega arith, up, slot)

  rounds-le : rounds tw now ≤ tw.w_size
  rounds-le = omega (arith, rounds_cases tw now later)

  -- A deadline lies before the end of the emptied slots just when it has passed.
  passed :
      (j : ℕ) (a : Ptr)
      → j < tw.w_size
      → a ∈ q j
      → (e a < tw.w_start + 0 + rounds tw now) ↔ (e a ≤ now)
  passed j a hj h =
      let (lo, up, _) = due j a hj h in
      (λ l. omega (arith, rounds_cases tw now later), λ l. omega (arith, rounds_cases tw now later))

  to_come :
      (j : ℕ) (a : Ptr)
      → j < tw.w_size
      → a ∈ q j
      → (tw.w_start + 0 + rounds tw now ≤ e a) ↔ (now < e a)
  to_come j a hj h =
      let (lo, up, _) = due j a hj h in
      (λ l. omega (arith, rounds_cases tw now later), λ l. omega (arith, rounds_cases tw now later))

  pub expired-Expires : Expires e tw q now (expired tw q now) (pending tw q now)
  expired-Expires =
      let n = rounds tw now in
      record {
        exactly = λ a. (
          λ h.
              let (l, (j, hj, there)) =
                mem-taken e tw room positive n 0 q a (omega (arith, rounds-le)) due_from h in
              ((passed j a hj there).0 l, (j, hj, there)),
          λ (l, (j, hj, there)).
              taken-mem e tw room positive n 0 q j a (omega (arith, rounds-le)) due_from hj there
                ((passed j a hj there).1 l),
        );
        ordered = taken-IsOrdered e tw room positive n 0 q (omega (arith, rounds-le)) due_from;
        others = λ j a hj.
            let m = mem-kept e tw room positive n 0 q j a (omega (arith, rounds-le)) due_from hj in
            (
              λ h. let (there, l) = m.0 h in ((to_come j a hj there).0 l, there),
              λ (l, there). m.1 (there, (to_come j a hj there).1 l),
            );
      }

-- ===== src/Memory/Returns.antt =====
-- Total correctness of a command: no fault, enough fuel, and a postcondition.
use batonlib.Memory.{Memory, Run, ok, fault, out_of_fuel, Cmd, and_then}

abbrev pub Returns : {A : Type 0} → Run A → (A → Memory → Type 0) → Type 0
Returns (ok a m) P = P a m
Returns fault P = ⊥
Returns out_of_fuel P = ⊥

module _ {A B : Type 0} where
  pub bind :
      (r : Run A) (k : A → Cmd B) (P : A → Memory → Type 0) (Q : B → Memory → Type 0)
      → Returns r P
      → ((a : A) (m : Memory) → P a m → Returns (k a m) Q)
      → Returns (and_then r k) Q
  bind (ok a m) k P Q h next = next a m h
  bind fault k P Q h next = h
  bind out_of_fuel k P Q h next = h

pub mono :
    {A : Type 0} (r : Run A) (P Q : A → Memory → Type 0)
    → Returns r P
    → ((a : A) (m : Memory) → P a m → Q a m)
    → Returns r Q
mono (ok a m) P Q h weaken = weaken a m h
mono fault P Q h weaken = h
mono out_of_fuel P Q h weaken = h

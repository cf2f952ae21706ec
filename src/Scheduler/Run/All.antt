-- ===== src/Scheduler/Run/All.antt =====
-- The active link is run until it is empty.
use mathlib.Core.List.{append_assoc}
use batonlib.Base.{
  ℕ, zero, suc, ◌+◌, ◌<◌, ◌≤◌, ◌≡◌, true, List, [], ◌∷◌, ◌++◌, length, length-append, append_nil,
  arith, ap, sym,
}
use batonlib.Memory.{Ptr, Memory, Cmd, valid, valid-ne_null}
use batonlib.Memory.Returns
use batonlib.Memory.Returns.{Returns}
use batonlib.Link.{IsLink}
use batonlib.Scheduler.{pop_active, run_active}
use batonlib.Scheduler.Run.{Popped, pop_active_lem}

-- What the coroutine of the item `x` does when it is resumed: it may add items to the active link, which
-- `work` pays for. `holds` is about the items whose coroutines have been resumed, in that order.
pub record Resumed (holds : List Ptr → Memory → Type 0) (work : Memory → ℕ) (active : Ptr)
    (done : List Ptr) (x : Ptr) (xs : List Ptr) (m m' : Memory) : Type 0 where
  pub added : List Ptr
  pub link : IsLink m' active (xs ++ added)
  pub held : holds (done ++ x ∷ []) m'
  pub paid : length added + work m' ≤ work m

-- `holds` gives an active item its event, and resuming that event's coroutine with the item off the
-- link, and only that, makes `holds` true of one item more.
pub record Coroutines (resume : Ptr → Cmd (Unit {0})) (active : Ptr)
    (holds : List Ptr → Memory → Type 0) (work : Memory → ℕ) : Type 0 where
  pub has_event :
      (done : List Ptr) (m : Memory) (x : Ptr) (xs : List Ptr)
      → holds done m
      → IsLink m active (x ∷ xs)
      → (valid m.item_live x ≡ true) × (valid m.events.live (m.item x) ≡ true)
  pub resumed :
      (done : List Ptr) (m m1 : Memory) (x : Ptr) (xs : List Ptr)
      → holds done m
      → IsLink m active (x ∷ xs)
      → Popped m m1 active x xs
      → Returns
          (resume (m1.events.co (m1.item x)) m1)
          (λ _ m'. Resumed holds work active done x xs m m')

-- The end of the loop: the coroutines of the items in front of `xs`, of `xs` and of those that were
-- added have been resumed.
pub record Ended (holds : List Ptr → Memory → Type 0) (work : Memory → ℕ) (active : Ptr)
    (before xs : List Ptr) (m m' : Memory) : Type 0 where
  pub more : List Ptr
  pub link : IsLink m' active []
  pub held : holds (before ++ xs ++ more) m'
  pub paid : length more + work m' ≤ work m

in_order :
    (done : List Ptr) (x : Ptr) (xs added more : List Ptr)
    → (done ++ (x ∷ [])) ++ (xs ++ added) ++ more ≡ (done ++ (x ∷ xs)) ++ (added ++ more)
in_order [] x xs added more = ap (◌∷◌ x) (append_assoc xs added more)
in_order (d ∷ done) x xs added more = ap (◌∷◌ d) (in_order done x xs added more)

-- The loop over the active link ends without a fault and leaves it empty, and it has resumed the
-- coroutine of each item once, in the order of the link, those of the items that were added meanwhile
-- included. The resumed coroutines return without a fault, keep the active link well formed and add
-- finitely many items in all, and the fuel exceeds the number of items on the link and of those still
-- to be added.
pub run_active_lem :
    (resume : Ptr → Cmd (Unit {0})) (active : Ptr) (holds : List Ptr → Memory → Type 0)
    (work : Memory → ℕ)
    → Coroutines resume active holds work
    → (fuel : ℕ) (done : List Ptr) (m : Memory) (xs : List Ptr) → length xs + work m < fuel
    → holds done m
    → IsLink m active xs
    → Returns (run_active fuel active resume m) (λ _ m'. Ended holds work active done xs m m')
unfolding run_active
run_active_lem resume active holds work c zero done m xs enough h is = absurd (omega arith)
run_active_lem resume active holds work c (suc fuel) done m [] enough h is =
    simp (is.live, is.head)
      (record {
        more = [];
        link = is;
        held = rw (append_nil (done ++ []), append_nil done) h;
        paid = omega arith;
      })
run_active_lem resume active holds work c (suc fuel) done m (x ∷ xs) enough h is =
    let (v, e) = c.has_event done m x xs h is in
    simp (is.live, is.head, valid-ne_null m.item_live x v)
      (Returns.bind (pop_active active x m) _ _ _ (pop_active_lem m active x xs is) (λ _ m1 p.
        let v1 : valid m1.item_live x ≡ true = rw p.same.item_live v in
        let e1 : valid m1.events.live (m1.item x) ≡ true = rw (p.same.events, p.same.item) e in
        simp (v1, e1)
          (Returns.bind (resume (m1.events.co (m1.item x)) m1) _ _ _
            (c.resumed done m m1 x xs h is p)
            (λ _ m2 r.
              Returns.mono (run_active fuel active resume m2) _ _
                (run_active_lem resume active holds work c fuel (done ++ x ∷ []) m2 (xs ++ r.added)
                  (omega (arith, length-append xs r.added, r.paid, enough)) r.held r.link)
                (λ _ m' d. record {
                  more = r.added ++ d.more;
                  link = d.link;
                  held = rw (sym (in_order done x xs r.added d.more)) d.held;
                  paid = omega (arith, length-append r.added d.more, d.paid, r.paid);
                })))))

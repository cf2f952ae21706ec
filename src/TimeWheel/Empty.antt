-- ===== src/TimeWheel/Empty.antt =====
-- A new time wheel is empty.
use batonlib.Base.{
  Distinct, ℕ, zero, suc, ◌<◌, ◌≡◌, refl, ◌≢◌, ◌⊎◌, sym, ap, Bool, true, List, [], ◌∷◌, ◌∈◌, ◌∉◌,
  length, get_elem?, arith, ==_refl, Bool-cases, inl, inr, ◌==◌, ==→eq, ne_of_mem, not-mem_tail,
}
use batonlib.Memory.{Ptr, null, Memory, valid, write}
use batonlib.Memory.Returns
use batonlib.Memory.Returns.{Returns}
use batonlib.Link.{IsLink}
use batonlib.TimeWheel.{new_links, new_time_wheel}
use batonlib.TimeWheel.Ring.{element, IsWheel}

-- A new link is empty, and an empty link stays so.
new_time_link_lem :
    (m : Memory) (k l : Ptr)
    → l ≢ null
    → (l ≡ k) ⊎ IsLink m l []
    → IsLink
        (record m {
          link_live = write m.link_live k true;
          head = write m.head k null;
          tail = write m.tail k null;
        })
        l
        []
unfolding valid write
new_time_link_lem m k l ne (inl e) = record {
  live = ground arith;
  head = ground arith;
  tail = ground arith;
  chain = tt;
}
new_time_link_lem m k l ne (inr is) = record {
  live = ground (arith, is.live);
  head = ground (arith, is.head);
  tail = ground (arith, is.tail);
  chain = tt;
}

new_links_lem :
    (ls : List Ptr) (m : Memory)
    → null ∉ ls
    → Returns
        (new_links ls m)
        (λ _ m'. (l : Ptr) → l ≢ null → (l ∈ ls) ⊎ IsLink m l [] → IsLink m' l [])
unfolding new_links
new_links_lem [] m out = λ l ne case. elim case [ inl h ↦ absurd (cc) | inr is ↦ is ]
new_links_lem (k ∷ ls) m out =
    Returns.mono (new_links ls _) _ _ (new_links_lem ls _ (not-mem_tail null k ls out))
      (λ _ m' all l ne case. all l ne (elim case [
        | inl h ↦ elim (Bool-cases (l == k)) [
          | inl e ↦ inr (new_time_link_lem m k l ne (inl (==→eq l k e)))
          | inr e ↦ inl (ground arith)
        ]
        | inr is ↦ inr (new_time_link_lem m k l ne (inr is))
      ]))

-- Each address once.
element-mem : (ls : List Ptr) (i : ℕ) → i < length ls → element (get_elem? ls i) ∈ ls
element-mem [] i h = absurd (omega arith)
element-mem (l ∷ ls) zero h = ground (arith, ==_refl l)
element-mem (l ∷ ls) (suc i) h = ground (arith, element-mem ls i)

element-injective :
    (ls : List Ptr) (i j : ℕ)
    → Distinct ls
    → i < length ls
    → j < length ls
    → element (get_elem? ls i) ≡ element (get_elem? ls j)
    → i ≡ j
element-injective [] i j d hi hj e = absurd (omega arith)
element-injective (l ∷ ls) zero zero d hi hj e = refl
element-injective (l ∷ ls) zero (suc j) (o, d) hi hj e =
    absurd (ne_of_mem (element (get_elem? ls j)) l ls (element-mem ls j (omega arith)) o (sym e))
element-injective (l ∷ ls) (suc i) zero (o, d) hi hj e =
    absurd (ne_of_mem (element (get_elem? ls i)) l ls (element-mem ls i (omega arith)) o e)
element-injective (l ∷ ls) (suc i) (suc j) (o, d) hi hj e =
    ap suc (element-injective ls i j d (omega arith) (omega arith) e)

-- The constructor runs without a fault and makes a well-formed wheel, for the time at which it runs,
-- on which every slot is empty. The addresses of the new links are different, none of them NULL,
-- and there is at least one.
pub new_time_wheel_lem :
    (ls : List Ptr) (isms : Bool) (now : ℕ) (m : Memory)
    → 0 < length ls
    → Distinct ls
    → null ∉ ls
    → Returns
        (new_time_wheel ls isms now m)
        (λ tw m'. (tw.w_start ≡ now) × (tw.w_size ≡ length ls) × IsWheel m' tw (λ i. []))
unfolding new_time_wheel
new_time_wheel_lem ls isms now m positive d out =
    Returns.bind (new_links ls m) _ _ _ (new_links_lem ls m out) (λ _ m' all. (
      refl,
      refl,
      record {
        positive = positive;
        width = refl;
        links = λ i h.
            let there = element-mem ls i h in
            all (element (get_elem? ls i)) (ne_of_mem (element (get_elem? ls i)) null ls there out)
              (inl there);
        distinct = λ i j hi hj e. element-injective ls i j d hi hj e;
      },
    ))

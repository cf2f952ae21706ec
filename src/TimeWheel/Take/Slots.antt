-- ===== src/TimeWheel/Take/Slots.antt =====
-- The loop of `time_wheel::take_all_timeout` over the slots that the clock has passed.
use mathlib.Core.List.{append_assoc}
use batonlib.Base.{
  ℕ, zero, suc, ◌<◌, ◌≡◌, refl, ◌≢◌, sym, ◌∙◌, List, [], ◌∷◌, ◌++◌, length, arith, ◌==◌, Bool-cases,
  inl, inr, append_nil, not-mem-cons, not-mem-append,
}
use batonlib.Memory.{Ptr, null, Memory}
use batonlib.Memory.Returns
use batonlib.Memory.Returns.{Returns}
use batonlib.Link.{IsLink}
use batonlib.Link.Frame.{Same, IsLink-frame, not-mem_of_t_link, Chain-t_link}
use batonlib.TimeWheel.{TimeWheel, slot_index, take_slot, take_slots}
use batonlib.TimeWheel.Splice.{take_slot_lem}
use batonlib.TimeWheel.Ring.{
  Contents, link_at, IsWheel, put_at, IsWheel-put_at, apart, not-mem_of_link, slot_lem,
  slot_index-lt,
}
use batonlib.TimeWheel.Take.Expired.{taken, kept}

-- The result link is none of the wheel's.
abbrev pub IsOutside : TimeWheel → Ptr → Type 0
IsOutside tw ret = (j : ℕ) → j < tw.w_size → ret ≢ link_at tw j

-- The walk along a slot is given more rounds than a slot has items.
abbrev pub Enough : ℕ → TimeWheel → Contents → Type 0
Enough fuel tw q = (j : ℕ) → j < tw.w_size → length (q j) < fuel

Enough-put_at :
    (fuel : ℕ) (tw : TimeWheel) (q : Contents) (s : ℕ)
    → Enough fuel tw q
    → Enough fuel tw (put_at q s [])
Enough-put_at fuel tw q s enough j h = elim (Bool-cases (j == s)) [
  | inl e ↦ rw e (omega (arith, enough j h))
  | inr e ↦ rw e (enough j h)
]

-- The items of the first slots have moved behind those of `ret`; links elsewhere keep theirs.
pub record Took (m : Memory) (tw : TimeWheel) (q : Contents) (ret : Ptr) (rs : List Ptr) (i n : ℕ)
    (m' : Memory) : Type 0 where
  pub wheel : IsWheel m' tw (kept tw q i n)
  pub link : IsLink m' ret (rs ++ taken tw q i n)
  pub expire_time : m'.expire_time ≡ m.expire_time
  pub item : m'.item ≡ m.item
  pub events : m'.events ≡ m.events
  pub links : (l : Ptr) (ys : List Ptr) → l ≢ ret → IsOutside tw l → IsLink m l ys → IsLink m' l ys

-- One round leaves the other links alone.
slot-links :
    {m m' : Memory} {tw : TimeWheel} {q : Contents} (ret : Ptr) (rs : List Ptr) (s : ℕ)
    → IsWheel m tw q
    → s < tw.w_size
    → IsLink m ret rs
    → Same m m' (ret ∷ link_at tw s ∷ []) (rs ++ q s)
    → (l : Ptr) (ys : List Ptr) → l ≢ ret
    → IsOutside tw l
    → IsLink m l ys
    → IsLink m' l ys
slot-links {m} {tw} {q} ret rs s is h link same l ys ne out k =
    IsLink-frame l ys same
      (not-mem-cons l ret (link_at tw s ∷ []) ne (not-mem-cons l (link_at tw s) [] (out s h) refl))
      (λ a there.
        not-mem-append a rs (q s)
          (not-mem_of_t_link m ret null rs a link.chain
            (λ e. ne (sym (Chain-t_link m l null ys a k.chain there) ∙ e)))
          (not-mem_of_link is k out s a h there))
      k

pub take_slots-Took :
    (n i fuel : ℕ) (m : Memory) (tw : TimeWheel) (q : Contents) (ret : Ptr) (rs : List Ptr)
    → IsWheel m tw q
    → IsLink m ret rs
    → IsOutside tw ret
    → Enough fuel tw q
    → Returns (take_slots fuel tw ret i n m) (λ _. Took m tw q ret rs i n)
unfolding take_slots taken kept
take_slots-Took zero i fuel m tw q ret rs is link outside enough = record {
  wheel = is;
  link = rw append_nil link;
  expire_time = refl;
  item = refl;
  events = refl;
  links = λ l ys ne out k. k;
}
take_slots-Took (suc n) i fuel m tw q ret rs is link outside enough =
    let s = slot_index tw i in
    let h = slot_index-lt tw i is.positive in
    let slot_link = is.links s h in
    rw (slot_lem is s h) (
      Returns.bind (take_slot fuel ret (link_at tw s) m) _ _ _
        (take_slot_lem fuel m ret (link_at tw s) rs (q s) (outside s h) (enough s h) link slot_link)
        (λ _ m' (link', empty, same).
          let is' =
            IsWheel-put_at m m' tw q (ret ∷ link_at tw s ∷ []) (rs ++ q s) [] s is same
              (λ j hj ne. (
                not-mem-cons (link_at tw j) ret (link_at tw s ∷ []) (λ e. outside j hj (sym e))
                    (not-mem-cons (link_at tw j) (link_at tw s) []
                      (λ e. ne (is.distinct j s hj h e)) refl),
                λ a there.
                    not-mem-append a rs (q s)
                      (not-mem_of_t_link m ret null rs a link.chain (λ e. outside j hj (
                        sym e
                        ∙ Chain-t_link m (link_at tw j) null (q j) a (is.links j hj).chain there)))
                      (apart is j s a hj h ne there),
              ))
              empty in
          Returns.mono (take_slots fuel tw ret (suc i) n m') _ _
            (take_slots-Took n (suc i) fuel m' tw (put_at q s []) ret (rs ++ q s) is' link' outside
              (Enough-put_at fuel tw q s enough))
            (λ _ m'' t. record {
              wheel = t.wheel;
              link = rw append_assoc at t.link;
              expire_time = t.expire_time ∙ same.expire_time;
              item = t.item ∙ same.item;
              events = t.events ∙ same.events;
              links = λ l ys ne out k.
                  t.links l ys ne out (slot-links ret rs s is h link same l ys ne out k);
            })))

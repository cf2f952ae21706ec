-- ===== src/Link/Append.antt =====
-- Chaining an item behind the last one.
use batonlib.Base.{
  ◌≡◌, refl, ◌≢◌, sym, ◌∙◌, has-append, true, List, [], ◌∷◌, ◌++◌, ◌∉◌, last, arith, last-append,
  last-mem, ne_of_mem, ne_of_not-mem, not-mem-cons, not-mem_tail, ne-last,
}
use batonlib.Memory.{Ptr, null, Memory, valid, valid-ne_null, write, write_self}
use batonlib.Memory.Returns.{Returns}
use batonlib.Link.{Chain, IsLink, append}
use batonlib.Link.Frame.{Same, Same-weaken, valid-last, Same-rechain}

-- `m'` has `p` behind the last item of `x ∷ xs`, and differs from `m` nowhere else.
record Extends (m m' : Memory) (l p t : Ptr) : Type 0 where
  item_live : m'.item_live ≡ m.item_live
  next_last : m'.next t ≡ p
  next_new : m'.next p ≡ null
  prev_new : m'.prev p ≡ t
  t_link_new : m'.t_link p ≡ l
  next : (a : Ptr) → a ≢ p → a ≢ t → m'.next a ≡ m.next a
  prev : (a : Ptr) → a ≢ p → m'.prev a ≡ m.prev a
  t_link : (a : Ptr) → a ≢ p → m'.t_link a ≡ m.t_link a

Chain-extend :
    (m m' : Memory) (l p before x : Ptr) (xs : List Ptr)
    → Extends m m' l p (last x xs)
    → valid m.item_live p ≡ true
    → p ∉ x ∷ xs
    → Chain m l before (x ∷ xs)
    → Chain m' l before (x ∷ xs ++ p ∷ [])
Chain-extend m m' l p before x [] s v out (valid, next, prev, t_link, o, rest) =
    let ne : x ≢ p = ground arith in
    (
      rw s.item_live valid,
      s.next_last,
      s.prev x ne ∙ prev,
      s.t_link x ne ∙ t_link,
      ground arith,
      (rw s.item_live v, s.next_new, s.prev_new, s.t_link_new, refl, tt),
    )
Chain-extend m m' l p before x (y ∷ xs) s v out (valid, next, prev, t_link, o, rest) =
    let ne : x ≢ p = ground arith in
    let behind : x ≢ last y xs = λ e. ne_of_mem (last y xs) x (y ∷ xs) (last-mem y xs) o (sym e) in
    (
      rw s.item_live valid,
      s.next x ne behind ∙ next,
      s.prev x ne ∙ prev,
      s.t_link x ne ∙ t_link,
      ground (arith, has-append x (y ∷ xs) (p ∷ [])),
      Chain-extend m m' l p x y xs s v (ground arith) rest,
    )

behind : Memory → (l p t : Ptr) → Memory
behind m l p t = record m {
  next = write (write m.next t p) p null;
  prev = write m.prev p t;
  t_link = write m.t_link p l;
  tail = write m.tail l p;
}

Extends-behind : (m : Memory) (l p t : Ptr) → t ≢ p → Extends m (behind m l p t) l p t
unfolding behind write
Extends-behind m l p t ne = record {
  item_live = refl;
  next_last = ground arith;
  next_new = ground arith;
  prev_new = ground arith;
  t_link_new = ground arith;
  next = λ a h k. ground arith;
  prev = λ a h. ground arith;
  t_link = λ a h. ground arith;
}

Same-behind : (m : Memory) (l p t : Ptr) → Same m (behind m l p t) (l ∷ []) (t ∷ p ∷ [])
unfolding behind write
Same-behind m l p t = Same-rechain (λ a h. ground arith) (λ a h. ground arith)

-- What `append` leaves: the item is last on its link.
abbrev pub Appended : Memory → Ptr → Ptr → List Ptr → Memory → Type 0
Appended m l p xs m' = IsLink m' l (xs ++ p ∷ []) × Same m m' (l ∷ []) (p ∷ xs)

append_empty :
    (m : Memory) (l p : Ptr)
    → IsLink m l []
    → valid m.item_live p ≡ true
    → Returns (append l p m) (λ _. Appended m l p [])
unfolding append write
append_empty m l p is v =
    simp (is.live, is.tail, v)
      (
        record {
          live = is.live;
          head = ground arith;
          tail = ground arith;
          chain = (v, ground arith, ground arith, ground arith, refl, tt);
        },
        Same-rechain (ground arith) (ground arith),
      )

append_cons :
    (m : Memory) (l p x : Ptr) (xs : List Ptr)
    → IsLink m l (x ∷ xs)
    → valid m.item_live p ≡ true
    → p ∉ x ∷ xs
    → Returns (append l p m) (λ _. Appended m l p (x ∷ xs))
unfolding append behind
append_cons m l p x xs is v out =
    let vt = valid-last m l null x xs is.chain in
    let ne = ne_of_mem (last x xs) p (x ∷ xs) (last-mem x xs) out in
    simp (is.live, is.tail, v, vt, valid-ne_null m.item_live (last x xs) vt)
      (
        record {
          live = is.live;
          head = is.head;
          tail = write_self m.tail l p ∙ sym (last-append x p xs);
          chain =
              Chain-extend m _ l p null x xs (Extends-behind m l p (last x xs) ne) v out is.chain;
        },
        Same-weaken (p ∷ x ∷ xs) (Same-behind m l p (last x xs)) (λ a out.
            let rest = not-mem_tail a p (x ∷ xs) out in
            not-mem-cons a (last x xs) (p ∷ []) (ne-last a x xs rest)
              (not-mem-cons a p [] (ne_of_not-mem a p (x ∷ xs) out) refl)),
      )

-- On a link that stands for `xs`, `append` of an allocated item that is not among them runs without a
-- fault and leaves the link standing for `xs` with the item behind; other links and other items keep
-- their chaining.
pub append_lem :
    (m : Memory) (l p : Ptr) (xs : List Ptr)
    → IsLink m l xs
    → valid m.item_live p ≡ true
    → p ∉ xs
    → Returns (append l p m) (λ _. Appended m l p xs)
append_lem m l p [] is v out = append_empty m l p is v
append_lem m l p (x ∷ xs) is v out = append_cons m l p x xs is v out

-- ===== src/Link/Remove.antt =====
-- A chain from which one item is taken.
use batonlib.Base.{
  ◌≡◌, ◌≢◌, sym, ◌∙◌, List, [], ◌∷◌, ◌++◌, ◌∉◌, last, ne_of_mem, ne_of_not-mem, not-mem_tail,
  not-mem_left, not-mem_right, not-mem_drop, ne-first, ne-last, first,
}
use batonlib.Memory.{Ptr, null, Memory, valid-ne}
use batonlib.Link.{Chain}
use batonlib.Link.Frame.{Chain-agree}

-- `m'` joins the neighbours `t` and `y` of `p`, either of which may be missing.
pub record Unlinked (m m' : Memory) (p t y : Ptr) : Type 0 where
  pub item_live : m'.item_live ≡ m.item_live
  pub next_before : t ≢ null → m'.next t ≡ y
  pub prev_after : y ≢ null → m'.prev y ≡ t
  pub next : (a : Ptr) → a ≢ p → a ≢ t → m'.next a ≡ m.next a
  pub prev : (a : Ptr) → a ≢ p → a ≢ y → m'.prev a ≡ m.prev a
  pub t_link : (a : Ptr) → a ≢ p → m'.t_link a ≡ m.t_link a

module _ {m m' : Memory} (l : Ptr) where
  Chain-unlink_front :
      (p before : Ptr) (ys : List Ptr)
      → Unlinked m m' p before (first ys)
      → before ∉ p ∷ ys
      → Chain m l before (p ∷ ys)
      → Chain m' l before ys
  Chain-unlink_front p before [] s out c = tt
  Chain-unlink_front p before (y ∷ ys) s out (_, _, _, _, o, (v, next, prev, t_link, oy, rest)) =
      let np : y ≢ p = λ e. ne_of_not-mem p y ys o (sym e) in
      let nb : y ≢ before =
        λ e. ne_of_not-mem before y ys (not-mem_tail before p (y ∷ ys) out) (sym e) in
      (
        rw s.item_live v,
        s.next y np nb ∙ next,
        s.prev_after (valid-ne m.item_live y v),
        s.t_link y np ∙ t_link,
        oy,
        Chain-agree m m' l y ys s.item_live
            (λ a h.
              let ap = ne_of_mem a p ys h (not-mem_tail p y ys o) in
              let ab =
                ne_of_mem a before ys h
                  (not-mem_tail before y ys (not-mem_tail before p (y ∷ ys) out)) in
              (s.next a ap ab, s.prev a ap (ne_of_mem a y ys h oy), s.t_link a ap))
            rest,
      )

  pub Chain-unlink :
      (p before : Ptr) (xs ys : List Ptr)
      → Unlinked m m' p (last before xs) (first ys)
      → before ∉ xs ++ p ∷ ys
      → Chain m l before (xs ++ p ∷ ys)
      → Chain m' l before (xs ++ ys)
  Chain-unlink p before [] ys s out c = Chain-unlink_front p before ys s out c
  Chain-unlink p before (x ∷ []) ys s out (v, next, prev, t_link, o, rest) =
      let np = ne_of_not-mem x p ys o in
      let nn = valid-ne m.item_live x v in
      (
        rw s.item_live v,
        s.next_before nn,
        s.prev x np (ne-first x ys nn (not-mem_tail x p ys o)) ∙ prev,
        s.t_link x np ∙ t_link,
        not-mem_tail x p ys o,
        Chain-unlink_front p x ys s o rest,
      )
  Chain-unlink p before (x ∷ x' ∷ xs) ys s out (v, next, prev, t_link, o, rest) =
      let right = not-mem_right x (x' ∷ xs) (p ∷ ys) o in
      let np = ne_of_not-mem x p ys right in
      let ny = ne-first x ys (valid-ne m.item_live x v) (not-mem_tail x p ys right) in
      (
        rw s.item_live v,
        s.next x np (ne-last x x' xs (not-mem_left x (x' ∷ xs) (p ∷ ys) o)) ∙ next,
        s.prev x np ny ∙ prev,
        s.t_link x np ∙ t_link,
        not-mem_drop x (x' ∷ xs) p ys o,
        Chain-unlink p x (x' ∷ xs) ys s o rest,
      )

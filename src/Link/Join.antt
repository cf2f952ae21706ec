-- ===== src/Link/Join.antt =====
-- Two chains made one.
use batonlib.Base.{
  ◌≡◌, ◌≢◌, sym, ◌∙◌, List, [], ◌∷◌, ◌++◌, ◌∈◌, ◌∉◌, last, arith, ne_of_mem, ne_of_not-mem,
  not-mem-append, not-mem_tail, ne-last,
}
use batonlib.Memory.{Ptr, null, Memory}
use batonlib.Link.{Chain}
use batonlib.Link.Frame.{Chain-agree}

-- `m'` has `x` behind `t`.
pub record Joined (m m' : Memory) (t x : Ptr) : Type 0 where
  pub item_live : m'.item_live ≡ m.item_live
  pub next_last : m'.next t ≡ x
  pub prev_first : m'.prev x ≡ t
  pub next : (a : Ptr) → a ≢ t → m'.next a ≡ m.next a
  pub prev : (a : Ptr) → a ≢ x → m'.prev a ≡ m.prev a
  pub t_link : (a : Ptr) → m'.t_link a ≡ m.t_link a

pub Chain-join :
    (m m' : Memory) (l before r x : Ptr) (rs xs : List Ptr)
    → Joined m m' (last r rs) x
    → ((a : Ptr) → a ∈ r ∷ rs → a ∉ x ∷ xs)
    → Chain m l before (r ∷ rs)
    → Chain m l null (x ∷ xs)
    → Chain m' l before (r ∷ rs ++ x ∷ xs)
Chain-join m m' l before r x [] xs j apart (v, next, prev, t_link, o, _) (w, xn, xp, xt, xo, rest) =
    let out = apart r (ground arith) in
    let ne = ne_of_not-mem r x xs out in
    (
      rw j.item_live v,
      j.next_last,
      j.prev r ne ∙ prev,
      j.t_link r ∙ t_link,
      out,
      (
        rw j.item_live w,
        j.next x (λ e. ne (sym e)) ∙ xn,
        j.prev_first,
        j.t_link x ∙ xt,
        xo,
        Chain-agree m m' l x xs j.item_live
            (λ a h.
              let ar = ne_of_mem a r xs h (not-mem_tail r x xs out) in
              (j.next a ar, j.prev a (ne_of_mem a x xs h xo), j.t_link a))
            rest,
      ),
    )
Chain-join m m' l before r x (s ∷ rs) xs j apart (v, next, prev, t_link, o, c) d =
    let out = apart r (ground arith) in
    (
      rw j.item_live v,
      j.next r (ne-last r s rs o) ∙ next,
      j.prev r (ne_of_not-mem r x xs out) ∙ prev,
      j.t_link r ∙ t_link,
      not-mem-append r (s ∷ rs) (x ∷ xs) o out,
      Chain-join m m' l r s x rs xs j (λ a h. apart a (ground arith)) c d,
    )

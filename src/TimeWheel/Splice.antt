-- ===== src/TimeWheel/Splice.antt =====
-- One round of `time_wheel::take_all_timeout`: the items of a slot get a new link and move to it.
use batonlib.Base.{
  ℕ, zero, suc, ◌<◌, ◌≡◌, refl, ◌≢◌, List, [], ◌∷◌, ◌++◌, ◌∈◌, ◌∉◌, last, first, length, arith, has,
  ne_of_mem, ne_of_not-mem, not-mem_tail, not-mem_left, not-mem_right, ne-last, last-append_cons,
  append_nil, sym, ◌∙◌, Bool-cases, inl, inr,
}
use batonlib.Memory.{Ptr, null, Memory, valid-ne_null, write, write_self, write_ne, write_kept, ok}
use batonlib.Memory.Returns.{Returns}
use batonlib.Link.{Chain, IsLink}
use batonlib.Link.Join.{Chain-join}
use batonlib.Link.Frame.{
  Chain-agree, Chain-relink, Same, Same-rechain, Same-refl, rechain, valid-last, not-mem_of_t_link,
  Chain-t_link,
}
use batonlib.TimeWheel.{relabel, splice, take_slot}

-- `k` with `l` written for each of `xs`.
pub marks : (Ptr → Ptr) → Ptr → List Ptr → Ptr → Ptr
marks k l [] = k
marks k l (x ∷ xs) = marks (write k x l) l xs

pub marks_out : (k : Ptr → Ptr) (l : Ptr) (xs : List Ptr) (a : Ptr) → a ∉ xs → marks k l xs a ≡ k a
unfolding marks
marks_out k l [] a out = refl
marks_out k l (x ∷ xs) a out =
    marks_out (write k x l) l xs a (not-mem_tail a x xs out)
    ∙ write_ne k x l a (ne_of_not-mem a x xs out)

pub marks_in : (k : Ptr → Ptr) (l : Ptr) (xs : List Ptr) (a : Ptr) → a ∈ xs → marks k l xs a ≡ l
unfolding marks
marks_in k l [] a h = absurd (cc)
marks_in k l (x ∷ xs) a h = elim (Bool-cases (has a xs)) [
  | inl e ↦ marks_in (write k x l) l xs a e
  | inr e ↦
      let here : a ≡ x = ground arith in
      rw here (marks_out (write k x l) l xs x (rw here at e) ∙ write_self k x l)
]

pub relabel-marks :
    (fuel : ℕ) (m : Memory) (ret l before : Ptr) (xs : List Ptr)
    → length xs < fuel
    → Chain m l before xs
    → relabel fuel ret (first xs) m ≡ ok tt (record m { t_link = marks m.t_link ret xs })
unfolding relabel marks
relabel-marks zero m ret l before xs f c = absurd (omega arith)
relabel-marks (suc fuel) m ret l before [] f c = refl
relabel-marks (suc fuel) m ret l before (x ∷ xs) f (v, next, prev, t_link, o, rest) =
    let m' = record m { t_link = write m.t_link x ret } in
    simp (valid-ne_null m.item_live x v, v, next)
      (relabel-marks fuel m' ret l x xs (omega arith) (
        Chain-agree m m' l x xs refl
          (λ a h. (refl, refl, write_ne m.t_link x ret a (ne_of_mem a x xs h o))) rest))

-- What a slot's items leave behind them: the slot is empty and they stand behind those of `ret`.
abbrev pub Moved : Memory → (ret from : Ptr) → (rs xs : List Ptr) → Memory → Type 0
Moved m ret from rs xs m' =
    IsLink m' ret (rs ++ xs) × IsLink m' from [] × Same m m' (ret ∷ from ∷ []) (rs ++ xs)

module _ (m : Memory) (ret from x : Ptr) (xs : List Ptr) where
  relabelled : Memory
  relabelled = record m { t_link = marks m.t_link ret (x ∷ xs) }

  Chain-relabelled : Chain m from null (x ∷ xs) → Chain relabelled ret null (x ∷ xs)
  unfolding relabelled
  Chain-relabelled c =
      Chain-relink m (record m { t_link = marks m.t_link ret (x ∷ xs) }) from ret null (x ∷ xs) refl
        (λ a h. (refl, refl, marks_in m.t_link ret (x ∷ xs) a h)) c

module _ (m : Memory) (ret from x : Ptr) (xs : List Ptr) (ne : ret ≢ from) where
  links_kept :
      (v w : Ptr) (l : Ptr)
      → l ∉ ret ∷ from ∷ []
      → (write (write m.head ret v) from null l ≡ m.head l)
        × (write (write m.tail ret w) from null l ≡ m.tail l)
  links_kept v w l out =
      let nr = ne_of_not-mem l ret (from ∷ []) out in
      let nf = ne_of_not-mem l from [] (not-mem_tail l ret (from ∷ []) out) in
      (
        write_ne (write m.head ret v) from null l nf ∙ write_ne m.head ret v l nr,
        write_ne (write m.tail ret w) from null l nf ∙ write_ne m.tail ret w l nr,
      )

  splice_empty :
      (fuel : ℕ)
      → length (x ∷ xs) < fuel
      → IsLink m ret []
      → IsLink m from (x ∷ xs)
      → Returns (take_slot fuel ret from m) (λ _. Moved m ret from [] (x ∷ xs))
  unfolding take_slot splice relabelled
  splice_empty fuel f r s =
      simp
        (
          s.live,
          s.head,
          s.tail,
          valid-ne_null m.item_live x s.chain.0,
          relabel-marks fuel m ret from null (x ∷ xs) f s.chain,
          r.live,
          r.tail,
        )
        (
          record {
            live = r.live;
            head = write_kept m.head ret from x null ne;
            tail = write_kept m.tail ret from (last x xs) null ne;
            chain = Chain-relabelled m ret from x xs s.chain;
          },
          record {
            live = s.live;
            head = write_self (write m.head ret x) from null;
            tail = write_self (write m.tail ret (last x xs)) from null;
            chain = tt;
          },
          Same-rechain (links_kept x (last x xs))
              (λ a out. (refl, refl, marks_out m.t_link ret (x ∷ xs) a out)),
        )

  module _ (y : Ptr) (ys : List Ptr) where
    t : Ptr
    t = last y ys

    joined : Memory
    joined =
        rechain m (write m.head from null) (write (write m.tail ret (last x xs)) from null)
          (write m.next t x) (write m.prev x t) (marks m.t_link ret (x ∷ xs))

    module _ (r : IsLink m ret (y ∷ ys)) (s : IsLink m from (x ∷ xs)) where
      apart : (a : Ptr) → a ∈ y ∷ ys → a ∉ x ∷ xs
      apart a h =
          not-mem_of_t_link m from null (x ∷ xs) a s.chain
            (λ e. ne (sym (Chain-t_link m ret null (y ∷ ys) a r.chain h) ∙ e))

      Chain-joined : Chain joined ret null (y ∷ ys ++ x ∷ xs)
      unfolding joined relabelled t
      Chain-joined =
          let m' = relabelled m ret from x xs in
          Chain-join m' joined ret null y x ys xs
            (record {
              item_live = refl;
              next_last = write_self m.next t x;
              prev_first = write_self m.prev x t;
              next = λ a h. write_ne m.next t x a h;
              prev = λ a h. write_ne m.prev x t a h;
              t_link = λ a. refl;
            })
            apart
            (Chain-agree m m' ret null (y ∷ ys) refl
              (λ a h. (refl, refl, marks_out m.t_link ret (x ∷ xs) a (apart a h))) r.chain)
            (Chain-relabelled m ret from x xs s.chain)

      Moved-joined : Moved m ret from (y ∷ ys) (x ∷ xs) joined
      unfolding joined t
      Moved-joined = (
        record {
          live = r.live;
          head = write_ne m.head from null ret ne ∙ r.head;
          tail = write_kept m.tail ret from (last x xs) null ne ∙ sym (last-append_cons y x ys xs);
          chain = Chain-joined;
        },
        record {
          live = s.live;
          head = write_self m.head from null;
          tail = write_self (write m.tail ret (last x xs)) from null;
          chain = tt;
        },
        Same-rechain
            (λ l out. (
              write_ne m.head from null l
                  (ne_of_not-mem l from [] (not-mem_tail l ret (from ∷ []) out)),
              (links_kept null (last x xs) l out).1,
            ))
            (λ a out.
              let right = not-mem_right a (y ∷ ys) (x ∷ xs) out in
              (
                write_ne m.next t x a (ne-last a y ys (not-mem_left a (y ∷ ys) (x ∷ xs) out)),
                write_ne m.prev x t a (ne_of_not-mem a x xs right),
                marks_out m.t_link ret (x ∷ xs) a right,
              )),
      )

  splice_cons :
      (fuel : ℕ) (y : Ptr) (ys : List Ptr)
      → length (x ∷ xs) < fuel
      → IsLink m ret (y ∷ ys)
      → IsLink m from (x ∷ xs)
      → Returns (take_slot fuel ret from m) (λ _. Moved m ret from (y ∷ ys) (x ∷ xs))
  unfolding take_slot splice joined t
  splice_cons fuel y ys f r s =
      let v = s.chain.0 in
      let w = valid-last m ret null y ys r.chain in
      simp
        (
          s.live,
          s.head,
          s.tail,
          v,
          w,
          valid-ne_null m.item_live x v,
          valid-ne_null m.item_live (last y ys) w,
          relabel-marks fuel m ret from null (x ∷ xs) f s.chain,
          r.live,
          r.tail,
        )
        (Moved-joined y ys r s)

-- Whatever the slot and the result hold: the slot's items move behind those of `ret`.
pub take_slot_lem :
    (fuel : ℕ) (m : Memory) (ret from : Ptr) (rs xs : List Ptr)
    → ret ≢ from
    → length xs < fuel
    → IsLink m ret rs
    → IsLink m from xs
    → Returns (take_slot fuel ret from m) (λ _. Moved m ret from rs xs)
unfolding take_slot
take_slot_lem fuel m ret from rs [] ne f r s =
    simp (s.live, s.head, append_nil rs) (r, s, Same-refl m (ret ∷ from ∷ []) rs)
take_slot_lem fuel m ret from [] (x ∷ xs) ne f r s = splice_empty m ret from x xs ne fuel f r s
take_slot_lem fuel m ret from (y ∷ ys) (x ∷ xs) ne f r s =
    splice_cons m ret from x xs ne fuel y ys f r s

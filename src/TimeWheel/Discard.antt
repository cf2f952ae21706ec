-- ===== src/TimeWheel/Discard.antt =====
-- `time_wheel::removeitem` of an item that stands on a wheel.
use batonlib.Base.{
  ℕ, ◌<◌, ◌≡◌, refl, sym, [], ◌∷◌, ◌++◌, ◌∈◌, ◌∉◌, ◌==◌, Bool-cases, inl, inr, ==→eq, ==→ne, erase,
  erase_out, split_at_mem, mem_of_mem-erase, not-mem-cons, ne_of_mem,
}
use batonlib.Memory.{Ptr, null, Memory}
use batonlib.Memory.Returns
use batonlib.Memory.Returns.{Returns}
use batonlib.Link.Frame.{Same, Chain-null}
use batonlib.TimeWheel.{TimeWheel, removeitem}
use batonlib.TimeWheel.Remove.{removeitem_lem}
use batonlib.TimeWheel.Ring.{
  Contents, link_at, IsWheel, Due, put_at, IsWheel-put_at, IsWheel-agree, apart,
}

-- The contents without an item.
abbrev pub without : Ptr → Contents → Contents
without p q i = erase p (q i)

pub Due-without :
    (e : Ptr → ℕ) (tw : TimeWheel) (q : Contents) (p : Ptr) → Due e tw q → Due e tw (without p q)
Due-without e tw q p due i a h there = due i a h (mem_of_mem-erase a p (q i) there)

module _ {m : Memory} {tw : TimeWheel} {q : Contents} (is : IsWheel m tw q) where
  null_out : (i : ℕ) → i < tw.w_size → null ∉ q i
  null_out i h = Chain-null m (link_at tw i) null (q i) (is.links i h).chain

  -- `removeitem` of an item on some slot of a well-formed wheel runs without a fault; the wheel
  -- holds the same items but for this one, whose pointers are NULL, and only the link of that slot
  -- and its items are touched.
  pub removeitem-without :
      (p : Ptr) (i : ℕ)
      → i < tw.w_size
      → p ∈ q i
      → Returns (removeitem p m) (λ _ m'.
        IsWheel m' tw (without p q)
        × (m'.t_link p ≡ null)
        × Same m m' (link_at tw i ∷ []) (null ∷ q i))
  removeitem-without p i h there =
      let (xs, ys, whole, less) = split_at_mem p (q i) there in
      let l = link_at tw i in
      Returns.mono (removeitem p m) _ _ (removeitem_lem m l p xs ys (rw whole at (is.links i h)))
        (λ _ m' (link, same, _, _, gone).
          let same' : Same m m' (l ∷ []) (null ∷ q i) = rw whole same in
          (
            IsWheel-agree m' tw (put_at q i (xs ++ ys)) (without p q)
                (λ j hj. elim (Bool-cases (j == i)) [
                  | inl e ↦ rw (e, ==→eq j i e) (sym less)
                  | inr e ↦ rw e (
                      sym
                        (erase_out p (q j) (apart is i j p h hj (λ k. ==→ne j i e (sym k)) there)))
                ])
                (IsWheel-put_at m m' tw q (l ∷ []) (null ∷ q i) (xs ++ ys) i is same'
                  (λ j hj ne. (
                    not-mem-cons (link_at tw j) l [] (λ e. ne (is.distinct j i hj h e)) refl,
                    λ a held.
                        not-mem-cons a null (q i) (ne_of_mem a null (q j) held (null_out j hj))
                          (apart is j i a hj h ne held),
                  ))
                  link),
            gone,
            same',
          ))

-- ===== src/TimeWheel/Add.antt =====
-- `time_wheel::add_timeout` puts an item at the end of the slot of its deadline, or refuses it.
use batonlib.Base.{
  ℕ, ◌+◌, ◌-◌, ◌<◌, ◌≤◌, ◌≡◌, refl, ◌≢◌, sym, ◌∙◌, ◌⊎◌, inl, inr, true, [], ◌∷◌, ◌++◌, ◌∈◌, ◌∉◌,
  arith, le→ltb, lt→ltb, ==→eq, ◌==◌, Bool-cases, ne_of_mem, not-mem-cons, mem-append, eq_of_mem,
}
use batonlib.Memory.{Ptr, Memory, valid, ok}
use batonlib.Memory.Returns
use batonlib.Memory.Returns.{Returns}
use batonlib.Link.{append}
use batonlib.Link.Frame.{Same}
use batonlib.Link.Append.{append_lem}
use batonlib.TimeWheel.{
  TimeWheel, no_value, minus_one, u64_mod, ticks, slot_index, add_timeout, add_in_slot,
}
use batonlib.TimeWheel.Ring.{
  Contents, link_at, IsWheel, Due, HasRoom, put_at, IsWheel-put_at, apart, slot_lem, slot_index-lt,
  slot_index_turn,
}

-- The difference of two times, where it does not wrap.
ticks-sub :
    (tw : TimeWheel) (e : ℕ)
    → tw.isms ≡ true
    → tw.w_start ≤ e
    → e < u64_mod
    → ticks tw e ≡ e - tw.w_start
unfolding ticks
ticks-sub tw e ms h k = rw ms (omega arith)

-- Refused: the deadline lies before the wheel's time, or more than a turn after it.
ticks_refused :
    (tw : TimeWheel) (e : ℕ)
    → tw.isms ≡ true
    → HasRoom tw
    → e < u64_mod
    → (e < tw.w_start) ⊎ (tw.w_start + tw.w_size < e)
    → tw.w_size < ticks tw e
unfolding ticks
ticks_refused tw e ms room small (inl h) = rw ms (omega arith)
ticks_refused tw e ms room small (inr h) = rw ms (omega arith)

module _ (m : Memory) (tw : TimeWheel) (p : Ptr) (v : valid m.item_live p ≡ true) where
  add_timeout_refused : tw.w_size < ticks tw (m.expire_time p) → add_timeout tw p m ≡ ok minus_one m
  unfolding add_timeout
  add_timeout_refused h = rw (v, lt→ltb tw.w_size (ticks tw (m.expire_time p)) h)

  add_timeout_accepted :
      ticks tw (m.expire_time p) ≤ tw.w_size
      → add_timeout tw p m ≡ add_in_slot tw p (ticks tw (m.expire_time p)) m
  unfolding add_timeout
  add_timeout_accepted h = rw (v, le→ltb tw.w_size (ticks tw (m.expire_time p)) h)

  -- With a millisecond wheel an item whose deadline lies before the wheel's time, or more than a
  -- turn after it, is refused with -1 and nothing is changed.
  pub add_timeout-minus_one :
      tw.isms ≡ true
      → HasRoom tw
      → m.expire_time p < u64_mod
      → (m.expire_time p < tw.w_start) ⊎ (tw.w_start + tw.w_size < m.expire_time p)
      → add_timeout tw p m ≡ ok minus_one m
  add_timeout-minus_one ms room small out =
      add_timeout_refused (ticks_refused tw (m.expire_time p) ms room small out)

module _ {m : Memory} {tw : TimeWheel} {q : Contents} (is : IsWheel m tw q) (p : Ptr) where
  others :
      (i j : ℕ)
      → i < tw.w_size
      → ((k : ℕ) → k < tw.w_size → p ∉ q k)
      → j < tw.w_size
      → j ≢ i
      → (link_at tw j ∉ link_at tw i ∷ []) × ((a : Ptr) → a ∈ q j → a ∉ p ∷ q i)
  others i j hi fresh hj ne = (
    not-mem-cons (link_at tw j) (link_at tw i) [] (λ e. ne (is.distinct j i hj hi e)) refl,
    λ a h. not-mem-cons a p (q i) (ne_of_mem a p (q j) h (fresh j hj)) (apart is j i a hj hi ne h),
  )

  add_in_slot_lem :
      (d : ℕ)
      → valid m.item_live p ≡ true
      → ((i : ℕ) → i < tw.w_size → p ∉ q i)
      → Returns (add_in_slot tw p d m) (λ r m'.
        (r ≡ no_value)
        × IsWheel m' tw (put_at q (slot_index tw d) (q (slot_index tw d) ++ p ∷ []))
        × Same m m' (link_at tw (slot_index tw d) ∷ []) (p ∷ q (slot_index tw d)))
  unfolding add_in_slot
  add_in_slot_lem d v fresh =
      let i = slot_index tw d in
      let h = slot_index-lt tw d is.positive in
      rw (slot_lem is i h) (
        Returns.bind (append (link_at tw i) p m) _ _ _
          (append_lem m (link_at tw i) p (q i) (is.links i h) v (fresh i h))
          (λ _ m' (link, same). (
            refl,
            IsWheel-put_at m m' tw q _ _ _ i is same (λ j hj ne. others i j h fresh hj ne) link,
            same,
          )))

  Due-put_at :
      (e : Ptr → ℕ)
      → tw.w_start ≤ e p
      → e p < tw.w_start + tw.w_size
      → Due e tw q
      → Due e tw (
          put_at q
            (slot_index tw (e p - tw.w_start))
            (q (slot_index tw (e p - tw.w_start)) ++ p ∷ []))
  Due-put_at e lo hi due j a hj h = elim (Bool-cases (j == slot_index tw (e p - tw.w_start))) [
    | inr k ↦ due j a hj (rw k at h)
    | inl k ↦
        let i = slot_index tw (e p - tw.w_start) in
        let same = ==→eq j i k in
        elim (mem-append a (q i) (p ∷ []) (rw k at h)) [
          | inl old ↦ due j a hj (rw same old)
          | inr new ↦ rw (eq_of_mem a p new) (lo, hi, same)
        ]
  ]

  -- The same with what is left alone.
  pub add_timeout_frame :
      tw.isms ≡ true
      → HasRoom tw
      → Due m.expire_time tw q
      → valid m.item_live p ≡ true
      → ((i : ℕ) → i < tw.w_size → p ∉ q i)
      → tw.w_start ≤ m.expire_time p
      → m.expire_time p < tw.w_start + tw.w_size
      → let i = slot_index tw (m.expire_time p - tw.w_start) in
        Returns (add_timeout tw p m) (λ r m'.
          (r ≡ no_value)
          × IsWheel m' tw (put_at q i (q i ++ p ∷ []))
          × Due m'.expire_time tw (put_at q i (q i ++ p ∷ []))
          × Same m m' (link_at tw i ∷ []) (p ∷ q i))
  add_timeout_frame ms room due v fresh lo hi =
      let e = m.expire_time p in
      let d = ticks-sub tw e ms lo (omega arith) in
      rw (add_timeout_accepted m tw p v (rw d (omega arith)), d)
        (Returns.mono (add_in_slot tw p (e - tw.w_start) m) _ _
          (add_in_slot_lem (e - tw.w_start) v fresh)
          (λ r m' (none, is', same).
            (none, is', rw same.expire_time (Due-put_at m.expire_time lo hi due), same)))

  -- With a millisecond wheel whose index has room, an allocated item on no slot, with a deadline not
  -- before the wheel's time and less than a turn after it, is put at the end of the slot of its
  -- deadline; the wheel stays well formed, with each item in the slot of its deadline.
  pub add_timeout_lem :
      tw.isms ≡ true
      → HasRoom tw
      → Due m.expire_time tw q
      → valid m.item_live p ≡ true
      → ((i : ℕ) → i < tw.w_size → p ∉ q i)
      → tw.w_start ≤ m.expire_time p
      → m.expire_time p < tw.w_start + tw.w_size
      → let i = slot_index tw (m.expire_time p - tw.w_start) in
        Returns (add_timeout tw p m) (λ r m'.
          (r ≡ no_value)
          × IsWheel m' tw (put_at q i (q i ++ p ∷ []))
          × Due m'.expire_time tw (put_at q i (q i ++ p ∷ [])))
  add_timeout_lem ms room due v fresh lo hi =
      Returns.mono (add_timeout tw p m) _ _ (add_timeout_frame ms room due v fresh lo hi)
        (λ r m' (none, is', due', _). (none, is', due'))

  -- An item whose deadline is a whole turn away is accepted, and goes to the slot of a deadline that
  -- has already been reached.
  pub add_full_turn :
      tw.isms ≡ true
      → HasRoom tw
      → valid m.item_live p ≡ true
      → ((i : ℕ) → i < tw.w_size → p ∉ q i)
      → m.expire_time p ≡ tw.w_start + tw.w_size
      → Returns (add_timeout tw p m) (λ r m'.
        (r ≡ no_value)
        × IsWheel m' tw (put_at q (slot_index tw 0) (q (slot_index tw 0) ++ p ∷ []))
        × Same m m' (link_at tw (slot_index tw 0) ∷ []) (p ∷ q (slot_index tw 0)))
  add_full_turn ms room v fresh far =
      let e = m.expire_time p in
      let d : ticks tw e ≡ tw.w_size =
        ticks-sub tw e ms (omega arith) (omega arith) ∙ omega arith in
      rw (add_timeout_accepted m tw p v (omega (arith, d)), d, sym (slot_index_turn tw room))
        (add_in_slot_lem tw.w_size v fresh)

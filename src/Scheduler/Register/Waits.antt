-- ===== src/Scheduler/Register/Waits.antt =====
-- `register_event` on its three ends.
use batonlib.Base.{
  ℕ, suc, ◌+◌, ◌-◌, ◌%◌, ◌<◌, ◌≤◌, ◌≡◌, refl, ◌≢◌, ◌∙◌, true, false, [], ◌∷◌, ◌++◌, ◌∉◌, arith,
  le→ltb,
}
use batonlib.Int.{ℤ, pos, negsuc}
use batonlib.Memory.{Ptr, null, Memory, valid}
use batonlib.Memory.Returns
use batonlib.Memory.Returns.{Returns}
use batonlib.Link.Fresh.{valid_new}
use batonlib.Link.Frame.{Same}
use batonlib.TimeWheel.{TimeWheel, no_value, u64_mod, slot_index, add_timeout}
use batonlib.TimeWheel.Ring.{Contents, link_at, IsWheel, Due, HasRoom, put_at, slot_index-lt}
use batonlib.TimeWheel.Add.{add_timeout_frame}
use batonlib.FdMap
use batonlib.Epoll.{CoEpoll}
use batonlib.Scheduler.Round.{HasEvents}
use batonlib.Scheduler.Register.{start_timer, register_event}
use batonlib.Scheduler.Register.Watch.{Watches, watch-Watches}
use batonlib.Scheduler.Register.Prepared.{
  prepared, Kept-prepared, prepared-IsNew, prepared_free, not-mem_of_new, IsWheel-kept, Due-kept,
}
use batonlib.Scheduler.Register.Timer.{Registered, untimed, timed}

-- `add_timeout_frame` for a known deadline.
add_timeout_at :
    {m : Memory} {tw : TimeWheel} {q : Contents} (is : IsWheel m tw q) (p : Ptr) {x : ℕ}
    → m.expire_time p ≡ x
    → tw.isms ≡ true
    → HasRoom tw
    → Due m.expire_time tw q
    → valid m.item_live p ≡ true
    → ((i : ℕ) → i < tw.w_size → p ∉ q i)
    → tw.w_start ≤ x
    → x < tw.w_start + tw.w_size
    → let i = slot_index tw (x - tw.w_start) in
      Returns (add_timeout tw p m) (λ r m'.
        (r ≡ no_value)
        × IsWheel m' tw (put_at q i (q i ++ p ∷ []))
        × Due m'.expire_time tw (put_at q i (q i ++ p ∷ []))
        × Same m m' (link_at tw i ∷ []) (p ∷ q i))
add_timeout_at is p e ms room due v fresh lo hi =
    rw e at (add_timeout_frame is p ms room due v fresh (rw e lo) (rw e hi))

-- The wheel with `t` at the end of the slot of the deadline `x`.
abbrev pub at_end : TimeWheel → Contents → Ptr → ℕ → Contents
at_end tw q t x = let i = slot_index tw (x - tw.w_start) in put_at q i (q i ++ t ∷ [])

module _ (m : Memory) (tw : TimeWheel) (q : Contents) (ep : CoEpoll) (co : Ptr) (fd : ℤ)
    (events now : ℕ) (e t : Ptr) (is : IsWheel m tw q) (due : Due m.expire_time tw q)
    (had : HasEvents m tw q) (ne : e ≢ null) (nt : t ≢ null)
    (item_free : m.item_live t ≡ false) where
  -- Without a timeout it comes to its yield, and its item is on no link.
  pub register_untimed :
      Returns (register_event tw ep co fd events (negsuc 0) now e t m) (λ (waits, ep') m'.
        (waits ≡ true) × Watches fd events e ep ep' × Registered m m' tw q e t co)
  unfolding register_event prepared
  register_untimed =
      simp (valid_new m.events.live e ne, valid_new m.item_live t nt)
        (
          refl,
          watch-Watches fd events e ep,
          untimed (Kept-prepared m e t co fd 0) (prepared-IsNew m e t co fd 0 ne nt) item_free is
              had refl (prepared_free m e t co fd 0) due,
        )

  -- With a timeout of `suc n` milliseconds that fits in the wheel it comes to its yield. Its event has the
  -- coroutine and the item, which stands at the end of the slot of its deadline. A descriptor that is not
  -- negative and had no item is under watch for `events` with the event, and no other one is touched; one
  -- that had an item, or is negative, changes nothing of what is watched.
  pub register_timed :
      (n : ℕ)
      → tw.isms ≡ true
      → HasRoom tw
      → suc n ≤ tw.w_size
      → tw.w_start ≤ now
      → now + suc n < tw.w_start + tw.w_size
      → Returns (register_event tw ep co fd events (pos (suc n)) now e t m) (λ (waits, ep') m'.
        (waits ≡ true)
        × Watches fd events e ep ep'
        × Registered m m' tw (at_end tw q t (now + suc n)) e t co
        × (m'.expire_time t ≡ now + suc n))
  unfolding register_event start_timer prepared
  register_timed n ms room small later within =
      let d = (now + suc n) % u64_mod in
      let exact : d ≡ now + suc n = omega arith in
      let m1 = prepared m e t co fd d in
      let k = Kept-prepared m e t co fd d in
      let new = prepared-IsNew m e t co fd d ne nt in
      let deadline : m1.expire_time t ≡ now + suc n = new.expire_time ∙ exact in
      simp
        (le→ltb tw.w_size (suc n) small, valid_new m.events.live e ne, valid_new m.item_live t nt)
        (Returns.bind _ _
          (λ w m'.
            (w ≡ true)
            × Registered m m' tw (at_end tw q t (now + suc n)) e t co
            × (m'.expire_time t ≡ now + suc n))
          _
          (Returns.bind (add_timeout tw t m1) _ _ _
            (add_timeout_at (IsWheel-kept k item_free is) t deadline ms room
              (Due-kept k item_free is due) new.item_valid (not-mem_of_new k item_free is)
              (omega arith) within)
            (λ r m2 (_, wheel, due', same).
              let v : valid m2.events.live e ≡ true = rw same.events new.event_valid in
              simp v (
                refl,
                timed k new item_free is had _ (slot_index-lt tw _ is.positive) same (omega arith)
                    wheel due',
                rw same.expire_time deadline,
              )))
          (λ w m' (waits, reg, at). (waits, watch-Watches fd events e ep, reg, at)))

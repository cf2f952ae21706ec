-- ===== src/Scheduler/Active.antt =====
-- One item joins the active link, after it has left the wheel where it stood on one.
use batonlib.Base.{
  ℕ, ◌<◌, ◌≡◌, refl, sym, ◌∙◌, true, List, [], ◌∷◌, ◌++◌, ◌∈◌, ◌∉◌, not-mem-cons, ne_of_mem,
}
use batonlib.Memory.{Ptr, null, Memory, valid, valid-ne, and_then}
use batonlib.Memory.Returns
use batonlib.Memory.Returns.{Returns}
use batonlib.Link.{IsLink, append}
use batonlib.Link.Append.{append_lem}
use batonlib.Link.Frame.{IsLink-frame, not-mem_of_t_link, Chain-t_link, Chain-null}
use batonlib.TimeWheel.{TimeWheel, removeitem}
use batonlib.TimeWheel.Ring.{Contents, link_at, IsWheel, IsWheel-frame, not-mem_of_link}
use batonlib.TimeWheel.Take.{IsOutside}
use batonlib.TimeWheel.Discard.{without, removeitem-without}
use batonlib.Scheduler.{add_active}
use batonlib.Scheduler.Spares.{Spares, Spares-trans, Spares-discard, Spares-append}

-- What one event leaves behind it.
pub record Added (m m' : Memory) (tw : TimeWheel) (q : Contents) (active : Ptr) (rs : List Ptr)
    (t : Ptr) : Type 0 where
  pub wheel : IsWheel m' tw (without t q)
  pub link : IsLink m' active (rs ++ t ∷ [])
  pub spares : Spares m m' tw active t

module _ {m : Memory} {tw : TimeWheel} {active : Ptr} {rs : List Ptr} (link : IsLink m active rs)
    (outside : IsOutside tw active) where
  -- The item stands on no link.
  pub add_active_lem :
      (q : Contents) (t : Ptr)
      → IsWheel m tw q
      → valid m.item_live t ≡ true
      → m.t_link t ≡ null
      → Returns (add_active active t m) (λ b m'.
        (b ≡ true) × IsWheel m' tw q × IsLink m' active (rs ++ t ∷ []) × Spares m m' tw active t)
  unfolding add_active
  add_active_lem q t is v free =
      let off : (l : Ptr) (ys : List Ptr) → IsLink m l ys → t ∉ ys = λ l ys k.
        not-mem_of_t_link m l null ys t k.chain
          (λ e. valid-ne m.link_live l k.live (sym e ∙ free)) in
      simp (v, free)
        (Returns.bind (append active t m) _ _ _
          (append_lem m active t rs link v (off active rs link))
          (λ _ m' (link', same). (
            refl,
            IsWheel-frame m m' tw q (active ∷ []) (t ∷ rs) same
                (λ j h. (
                  not-mem-cons (link_at tw j) active [] (λ e. outside j h (sym e)) refl,
                  λ a there.
                      not-mem-cons a t rs
                        (ne_of_mem a t (q j) there (off (link_at tw j) (q j) (is.links j h)))
                        (not-mem_of_t_link m active null rs a link.chain (λ e. outside j h (
                          sym e
                          ∙ Chain-t_link m (link_at tw j) null (q j) a (is.links j h).chain
                              there))),
                ))
                is,
            link',
            Spares-append tw active t rs link same,
          )))

module _ {m : Memory} {tw : TimeWheel} {active : Ptr} {rs : List Ptr} (link : IsLink m active rs)
    (outside : IsOutside tw active) where
  -- An item on the wheel.
  pub discard_add :
      (q : Contents) (t i : ℕ)
      → IsWheel m tw q
      → valid m.item_live t ≡ true
      → i < tw.w_size
      → t ∈ q i
      → Returns
          (and_then (removeitem t m) (λ _. add_active active t))
          (λ b m'. (b ≡ true) × Added m m' tw q active rs t)
  discard_add q t i is v h there =
      Returns.bind (removeitem t m) _ _ _ (removeitem-without is t i h there)
        (λ _ m' (is', free, same).
          let out = not-mem_of_t_link m active null rs t link.chain (λ e.
            outside i h
              (sym e ∙ Chain-t_link m (link_at tw i) null (q i) t (is.links i h).chain there)) in
          let s = Spares-discard active t i is h same in
          let v' : valid m'.item_live t ≡ true = rw same.item_live v in
          let link' =
            IsLink-frame active rs same (not-mem-cons active (link_at tw i) [] (outside i h) refl)
              (λ a k.
                not-mem-cons a null (q i)
                  (ne_of_mem a null rs k (Chain-null m active null rs link.chain))
                  (not-mem_of_link is link outside i a h k))
              link in
          Returns.mono (add_active active t m') _ _
            (add_active_lem link' outside (without t q) t is' v' free)
            (λ b m'' (done, w, l, r).
              (done, record { wheel = w; link = l; spares = Spares-trans s r })))

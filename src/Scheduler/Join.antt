-- ===== src/Scheduler/Join.antt =====
-- The timeout link joins the active one, as a slot of the wheel joins a result link.
use batonlib.Base.{
  ℕ, ◌<◌, ◌≡◌, refl, ◌≢◌, sym, ◌∙◌, List, [], ◌∷◌, ◌++◌, length, last, not-mem-cons, not-mem-append,
}
use batonlib.Memory.{Ptr, null, Memory, valid-ne_null}
use batonlib.Memory.Returns
use batonlib.Memory.Returns.{Returns}
use batonlib.Link.{IsLink}
use batonlib.Link.Frame.{not-mem_of_t_link, Chain-t_link, valid-last}
use batonlib.TimeWheel.{TimeWheel, splice, take_slot}
use batonlib.TimeWheel.Ring.{Contents, link_at, IsWheel, IsWheel-frame}
use batonlib.TimeWheel.Splice.{Moved, relabel-marks, take_slot_lem}
use batonlib.TimeWheel.Take.{IsOutside}
use batonlib.Scheduler.{join_timeout}

-- The two write the ends of the new connection in another order.
join_timeout-take_slot :
    (fuel : ℕ) (m : Memory) (active timeout : Ptr) (rs xs : List Ptr)
    → length xs < fuel
    → IsLink m active rs
    → IsLink m timeout xs
    → join_timeout fuel active timeout m ≡ take_slot fuel active timeout m
unfolding join_timeout take_slot splice
join_timeout-take_slot fuel m active timeout rs [] f r s = simp (s.live, s.head)
join_timeout-take_slot fuel m active timeout [] (x ∷ xs) f r s = simp (
  s.live,
  s.head,
  s.tail,
  valid-ne_null m.item_live x s.chain.0,
  relabel-marks fuel m active timeout null (x ∷ xs) f s.chain,
  r.live,
  r.tail,
)
join_timeout-take_slot fuel m active timeout (y ∷ ys) (x ∷ xs) f r s =
    let v = s.chain.0 in
    let w = valid-last m active null y ys r.chain in
    simp (
      s.live,
      s.head,
      s.tail,
      v,
      w,
      valid-ne_null m.item_live x v,
      valid-ne_null m.item_live (last y ys) w,
      relabel-marks fuel m active timeout null (x ∷ xs) f s.chain,
      r.live,
      r.tail,
    )

-- The timeout link's items move behind the active ones, and the wheel stays as it is.
pub join_timeout_lem :
    {m : Memory} {tw : TimeWheel} {q : Contents} {active timeout : Ptr} {rs xs : List Ptr}
    (fuel : ℕ)
    → IsWheel m tw q
    → active ≢ timeout
    → IsOutside tw active
    → IsOutside tw timeout
    → IsLink m active rs
    → IsLink m timeout xs
    → length xs < fuel
    → Returns
        (join_timeout fuel active timeout m)
        (λ _ m'. Moved m active timeout rs xs m' × IsWheel m' tw q)
join_timeout_lem {m} {tw} {q} {active} {timeout} {rs} {xs} fuel is ne out out' link link' enough =
    rw (join_timeout-take_slot fuel m active timeout rs xs enough link link') (
      Returns.mono (take_slot fuel active timeout m) _ _
        (take_slot_lem fuel m active timeout rs xs ne enough link link')
        (λ _ m' (l, l', same). (
          (l, l', same),
          IsWheel-frame m m' tw q (active ∷ timeout ∷ []) (rs ++ xs) same
              (λ j h. (
                not-mem-cons (link_at tw j) active (timeout ∷ []) (λ e. out j h (sym e))
                    (not-mem-cons (link_at tw j) timeout [] (λ e. out' j h (sym e)) refl),
                λ a there.
                    let of =
                      Chain-t_link m (link_at tw j) null (q j) a (is.links j h).chain there in
                    not-mem-append a rs xs
                      (not-mem_of_t_link m active null rs a link.chain (λ e. out j h (sym e ∙ of)))
                      (not-mem_of_t_link m timeout null xs a link'.chain
                        (λ e. out' j h (sym e ∙ of))),
              ))
              is,
        )))

-- ===== src/Scheduler/Ready.antt =====
-- The first part of a round of `scheduler::event_loop`: the items of the ready events leave the
-- wheel and stand on the active link in the order of the events.
use mathlib.Core.List.{append_assoc}
use batonlib.Base.{
  ◌<◌, ◌≡◌, refl, ◌≢◌, sym, ◌∙◌, ◌⊎◌, inl, inr, true, List, [], ◌∷◌, ◌++◌, ◌∉◌, lt→ltb, append_nil,
  erase_out, mem-erase_ne, ne_of_not-mem, not-mem_tail,
}
use batonlib.Memory.{Ptr, null, Memory, write, valid, valid-ne, and_then}
use batonlib.Memory.Returns
use batonlib.Memory.Returns.{Returns}
use batonlib.Link.{IsLink}
use batonlib.Link.Frame.{Same, Same-isremove, IsLink-frame, not-mem_of_t_link}
use batonlib.TimeWheel.{TimeWheel, removeitem}
use batonlib.TimeWheel.Ring.{Contents, link_at, IsWheel, IsWheel-frame, IsWheel-agree}
use batonlib.TimeWheel.Take.{IsOutside}
use batonlib.TimeWheel.Take.Expired.{InWheel}
use batonlib.TimeWheel.Discard.{without}
use batonlib.Scheduler.{add_active, add_ready, collect_ready}
use batonlib.Scheduler.Active.{Added, add_active_lem, discard_add}
use batonlib.Scheduler.Spares.{Spares, Spares-trans}

-- Event `e` is allocated, and its item `t` stands on the wheel, or has no deadline and is on no link.
pub record IsReady (m : Memory) (tw : TimeWheel) (q : Contents) (e t : Ptr) : Type 0 where
  pub live : valid m.events.live e ≡ true
  pub t_item : m.events.t_item e ≡ t
  pub item_valid : valid m.item_live t ≡ true
  pub place :
      ((0 < m.expire_time t) × InWheel tw q t) ⊎ ((m.expire_time t ≡ 0) × (m.t_link t ≡ null))

-- The memory in which `t` is marked as taken off the wheel.
marked : Memory → Ptr → Memory
marked m t = record m { isremove = write m.isremove t true }

marked-Same : (m : Memory) (t : Ptr) → Same m (marked m t) [] []
unfolding marked
marked-Same m t = Same-isremove m (write m.isremove t true)

Spares-marked : (m : Memory) (tw : TimeWheel) (active t : Ptr) → Spares m (marked m t) tw active t
unfolding marked
Spares-marked m tw active t = record {
  item_live = refl;
  expire_time = refl;
  item = refl;
  events = refl;
  nulls = λ a ne v n. n;
  links = λ l ys ne out free is. IsLink-frame l ys (marked-Same m t) refl (λ a h. refl) is;
}

module _ {m : Memory} {tw : TimeWheel} {active : Ptr} {rs : List Ptr} (link : IsLink m active rs)
    (outside : IsOutside tw active) where
  -- A ready event, whether its item has a deadline or not.
  add_ready_lem :
      (q : Contents) (e t : Ptr)
      → IsWheel m tw q
      → IsReady m tw q e t
      → Returns (add_ready active e m) (λ b m'. (b ≡ true) × Added m m' tw q active rs t)
  unfolding add_ready marked
  add_ready_lem q e t is r =
      let m0 = marked m t in
      let s = marked-Same m t in
      let is0 = IsWheel-frame m m0 tw q [] [] s (λ j h. (refl, λ a k. refl)) is in
      let link0 = IsLink-frame active rs s refl (λ a h. refl) link in
      let spared = Spares-marked m tw active t in
      elim r.place [
        | inl (h, (i, hi, there)) ↦
            simp (r.live, r.t_item, r.item_valid, lt→ltb 0 (m.expire_time t) h)
              (Returns.mono (and_then (removeitem t m0) (λ _. add_active active t)) _ _
                (discard_add link0 outside q t i is0 r.item_valid hi there)
                (λ b m' (done, a). (
                  done,
                  record { wheel = a.wheel; link = a.link; spares = Spares-trans spared a.spares },
                )))
        | inr (none, free) ↦
            simp (r.live, r.t_item, r.item_valid, none)
              (Returns.mono (add_active active t m0) _ _
                (add_active_lem link0 outside q t is0 r.item_valid free)
                (λ b m' (done, w, l, a). (
                  done,
                  record {
                    wheel =
                        IsWheel-agree m' tw q (without t q)
                          (λ j h. sym (
                            erase_out t (q j) (
                              not-mem_of_t_link m (link_at tw j) null (q j) t (is.links j h).chain
                                (λ e.
                                  valid-ne m.link_live (link_at tw j) (is.links j h).live
                                    (sym e ∙ free)))))
                          w;
                    link = l;
                    spares = Spares-trans spared a;
                  },
                )))
      ]

-- The reported events `es` with their items `ts`, each item once.
abbrev pub AllReady : Memory → TimeWheel → Contents → List Ptr → List Ptr → Type 0
AllReady m tw q [] [] = Unit {0}
AllReady m tw q (e ∷ es) [] = ⊥
AllReady m tw q [] (t ∷ ts) = ⊥
AllReady m tw q (e ∷ es) (t ∷ ts) = IsReady m tw q e t × (t ∉ ts) × AllReady m tw q es ts

-- The contents without several items.
abbrev pub without_all : List Ptr → Contents → Contents
without_all [] q = q
without_all (t ∷ ts) q = without_all ts (without t q)

-- An event stays ready while another is handled.
IsReady-Spares :
    (m m' : Memory) (tw : TimeWheel) (q : Contents) (active e t u : Ptr)
    → t ≢ u
    → Spares m m' tw active u
    → IsReady m tw q e t
    → IsReady m' tw (without u q) e t
IsReady-Spares m m' tw q active e t u ne s r = record {
  live = rw s.events r.live;
  t_item = rw s.events r.t_item;
  item_valid = rw s.item_live r.item_valid;
  place = elim r.place [
    | inl (h, (i, hi, there)) ↦ inl (rw s.expire_time h, (i, hi, mem-erase_ne t u (q i) ne there))
    | inr (none, free) ↦ inr (rw s.expire_time none, s.nulls t ne r.item_valid free)
  ];
}

AllReady-Spares :
    (m m' : Memory) (tw : TimeWheel) (q : Contents) (active u : Ptr) (es ts : List Ptr)
    → u ∉ ts
    → Spares m m' tw active u
    → AllReady m tw q es ts
    → AllReady m' tw (without u q) es ts
AllReady-Spares m m' tw q active u [] [] out s all = tt
AllReady-Spares m m' tw q active u [] (t ∷ ts) out s all = all
AllReady-Spares m m' tw q active u (e ∷ es) [] out s all = all
AllReady-Spares m m' tw q active u (e ∷ es) (t ∷ ts) out s (r, o, rest) = (
  IsReady-Spares m m' tw q active e t u (λ k. ne_of_not-mem u t ts out (sym k)) s r,
  o,
  AllReady-Spares m m' tw q active u es ts (not-mem_tail u t ts out) s rest,
)

-- What the reported events leave behind them.
pub record Collected (m m' : Memory) (tw : TimeWheel) (q : Contents) (active : Ptr)
    (rs ts : List Ptr) : Type 0 where
  pub wheel : IsWheel m' tw (without_all ts q)
  pub link : IsLink m' active (rs ++ ts)
  pub expire_time : m'.expire_time ≡ m.expire_time
  pub item : m'.item ≡ m.item
  pub events : m'.events ≡ m.events
  pub empty_links : (l : Ptr) → l ≢ active → IsOutside tw l → IsLink m l [] → IsLink m' l []

-- The items of the reported events leave the wheel and stand behind those of the active link in the
-- order of the events; the loop does not return early. The wheel is well formed, the active link is
-- none of the wheel's, and each event's item occurs once, on the wheel with a deadline or on no link
-- without one.
pub collect_ready_lem :
    (es ts : List Ptr) (m : Memory) (tw : TimeWheel) (q : Contents) (active : Ptr) (rs : List Ptr)
    → IsLink m active rs
    → IsOutside tw active
    → IsWheel m tw q
    → AllReady m tw q es ts
    → Returns (collect_ready active es m) (λ b m'. (b ≡ true) × Collected m m' tw q active rs ts)
unfolding collect_ready
collect_ready_lem [] [] m tw q active rs link outside is all = (
  refl,
  record {
    wheel = is;
    link = rw append_nil link;
    expire_time = refl;
    item = refl;
    events = refl;
    empty_links = λ l ne out k. k;
  },
)
collect_ready_lem [] (t ∷ ts) m tw q active rs link outside is all = absurd all
collect_ready_lem (e ∷ es) [] m tw q active rs link outside is all = absurd all
collect_ready_lem (e ∷ es) (t ∷ ts) m tw q active rs link outside is (r, o, rest) =
    Returns.bind (add_ready active e m) _ _ _ (add_ready_lem link outside q e t is r)
      (λ b m' (done, a). rw done (
        Returns.mono (collect_ready active es m') _ _
          (collect_ready_lem es ts m' tw (without t q) active (rs ++ t ∷ []) a.link outside a.wheel
            (AllReady-Spares m m' tw q active t es ts o a.spares rest))
          (λ b' m'' (done', c). (
            done',
            record {
              wheel = c.wheel;
              link = rw append_assoc at c.link;
              expire_time = c.expire_time ∙ a.spares.expire_time;
              item = c.item ∙ a.spares.item;
              events = c.events ∙ a.spares.events;
              empty_links =
                  λ l ne out k. c.empty_links l ne out (a.spares.links l [] ne out refl k);
            },
          ))))

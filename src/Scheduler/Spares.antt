-- ===== src/Scheduler/Spares.antt =====
-- What the collection of one item leaves alone.
use batonlib.Base.{
  ℕ, ◌<◌, ◌≡◌, refl, ◌≢◌, sym, ◌∙◌, true, List, [], ◌∷◌, ◌∉◌, not-mem-cons, ne_of_mem,
}
use batonlib.Memory.{Ptr, null, Memory, valid, valid-ne}
use batonlib.Link.{IsLink}
use batonlib.Link.Frame.{Same, IsLink-frame, Chain-null, Chain-t_link, not-mem_of_t_link}
use batonlib.TimeWheel.{TimeWheel}
use batonlib.TimeWheel.Ring.{Contents, link_at, IsWheel, not-mem_of_link}
use batonlib.TimeWheel.Take.{IsOutside}

-- Items on no link but `t` stay so, and links but `active` and those of the wheel keep their items.
pub record Spares (m m' : Memory) (tw : TimeWheel) (active t : Ptr) : Type 0 where
  pub item_live : m'.item_live ≡ m.item_live
  pub expire_time : m'.expire_time ≡ m.expire_time
  pub item : m'.item ≡ m.item
  pub events : m'.events ≡ m.events
  pub nulls :
      (a : Ptr) → a ≢ t → valid m.item_live a ≡ true → m.t_link a ≡ null → m'.t_link a ≡ null
  pub links :
      (l : Ptr) (ys : List Ptr)
      → l ≢ active
      → IsOutside tw l
      → t ∉ ys
      → IsLink m l ys
      → IsLink m' l ys

pub Spares-trans :
    {m m' m'' : Memory} {tw : TimeWheel} {active t : Ptr}
    → Spares m m' tw active t
    → Spares m' m'' tw active t
    → Spares m m'' tw active t
Spares-trans s r = record {
  item_live = r.item_live ∙ s.item_live;
  expire_time = r.expire_time ∙ s.expire_time;
  item = r.item ∙ s.item;
  events = r.events ∙ s.events;
  nulls = λ a ne v n. r.nulls a ne (rw s.item_live v) (s.nulls a ne v n);
  links = λ l ys ne out free is. r.links l ys ne out free (s.links l ys ne out free is);
}

-- An item leaves slot `i`.
pub Spares-discard :
    {m m' : Memory} {tw : TimeWheel} {q : Contents} (active t : Ptr) (i : ℕ)
    → IsWheel m tw q
    → i < tw.w_size
    → Same m m' (link_at tw i ∷ []) (null ∷ q i)
    → Spares m m' tw active t
Spares-discard {m} {tw} {q} active t i is h s = record {
  item_live = s.item_live;
  expire_time = s.expire_time;
  item = s.item;
  events = s.events;
  nulls = λ a ne v n.
      let out =
        not-mem_of_t_link m (link_at tw i) null (q i) a (is.links i h).chain
          (λ e. valid-ne m.link_live (link_at tw i) (is.links i h).live (sym e ∙ n)) in
      s.t_link a (not-mem-cons a null (q i) (valid-ne m.item_live a v) out) ∙ n;
  links = λ l ys ne out free link.
      IsLink-frame l ys s (not-mem-cons l (link_at tw i) [] (out i h) refl)
        (λ a there.
          not-mem-cons a null (q i) (ne_of_mem a null ys there (Chain-null m l null ys link.chain))
            (not-mem_of_link is link out i a h there))
        link;
}

-- An item joins the active link.
pub Spares-append :
    {m m' : Memory} (tw : TimeWheel) (active t : Ptr) (rs : List Ptr)
    → IsLink m active rs
    → Same m m' (active ∷ []) (t ∷ rs)
    → Spares m m' tw active t
Spares-append {m} tw active t rs is s = record {
  item_live = s.item_live;
  expire_time = s.expire_time;
  item = s.item;
  events = s.events;
  nulls = λ a ne v n.
      let out =
        not-mem_of_t_link m active null rs a is.chain
          (λ e. valid-ne m.link_live active is.live (sym e ∙ n)) in
      s.t_link a (not-mem-cons a t rs ne out) ∙ n;
  links = λ l ys ne out free link.
      IsLink-frame l ys s (not-mem-cons l active [] ne refl)
        (λ a there. not-mem-cons a t rs (ne_of_mem a t ys there free) (
          not-mem_of_t_link m active null rs a is.chain
            (λ e. ne (sym (Chain-t_link m l null ys a link.chain there) ∙ e))))
        link;
}

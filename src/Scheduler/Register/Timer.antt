-- ===== src/Scheduler/Register/Timer.antt =====
-- What a registered event leaves behind it.
use batonlib.Base.{
  ℕ, ◌<◌, ◌≡◌, refl, ◌∙◌, inl, inr, false, List, [], ◌∷◌, ◌++◌, arith, mem_right, mem-append,
  eq_of_mem, ==_refl, ◌==◌, Bool-cases, not-mem-cons, ne_of_mem,
}
use batonlib.Int.{ℤ}
use batonlib.Memory.{Ptr, null, Memory, write, write_self}
use batonlib.Link.{IsLink}
use batonlib.Link.Fresh.{Kept, IsLink-kept, not-mem_of_fresh}
use batonlib.Link.Frame.{Same, IsLink-frame}
use batonlib.TimeWheel.{TimeWheel}
use batonlib.TimeWheel.Ring.{Contents, link_at, IsWheel, Due, put_at, not-mem_of_link}
use batonlib.TimeWheel.Take.{IsOutside}
use batonlib.Scheduler.Round.{HasEvents}
use batonlib.Scheduler.Ready.{IsReady}
use batonlib.Scheduler.Timeouts.{IsWheel-events, IsLink-events}
use batonlib.Scheduler.Register.Prepared.{IsNew, not-mem_of_new, IsWheel-kept, Due-kept}

-- `item->t_item = t_item`
abbrev pub with_item : Memory → (e t : Ptr) → Memory
with_item m e t = record m { events = record m.events { t_item = write m.events.t_item e t } }

-- The event `e` of coroutine `co` waits with its item `t`; the wheel holds `q`.
pub record Registered (m m' : Memory) (tw : TimeWheel) (q : Contents) (e t co : Ptr) : Type 0 where
  pub ready : IsReady m' tw q e t
  pub co_of : m'.events.co e ≡ co
  pub is_timeout : m'.events.is_timeout e ≡ false
  pub wheel : IsWheel m' tw q
  pub due : Due m'.expire_time tw q
  pub events : HasEvents m' tw q
  pub links : (l : Ptr) (xs : List Ptr) → IsOutside tw l → IsLink m l xs → IsLink m' l xs

module _ {m m1 : Memory} {tw : TimeWheel} {q : Contents} {e t co : Ptr} {fd : ℤ} {d : ℕ}
    (k : Kept m m1 e t) (new : IsNew m e t co fd d m1) (free : m.item_live t ≡ false)
    (is : IsWheel m tw q) (had : HasEvents m tw q) where
  had_events : HasEvents m1 tw q
  had_events a (i, h, there) =
      rw (k.item a (ne_of_mem a t (q i) there (not-mem_of_new k free is i h)))
        (k.event_valid (m.item a) (had a (i, h, there)))

  -- Without a timeout the item is on no link.
  pub untimed :
      d ≡ 0
      → m1.t_link t ≡ null
      → Due m.expire_time tw q
      → Registered m (with_item m1 e t) tw q e t co
  untimed none off due = record {
    ready = record {
      live = new.event_valid;
      t_item = write_self m1.events.t_item e t;
      item_valid = new.item_valid;
      place = inr (new.expire_time ∙ none, off);
    };
    co_of = new.co_of;
    is_timeout = new.is_timeout;
    wheel = IsWheel-events m1 _ tw q (IsWheel-kept k free is);
    due = Due-kept k free is due;
    events = had_events;
    links = λ l xs out link. IsLink-events m1 _ l xs (IsLink-kept k free l xs link);
  }

  -- With a timeout it stands at the end of slot `i`.
  module _ {m2 : Memory} (i : ℕ) (h : i < tw.w_size)
      (same : Same m1 m2 (link_at tw i ∷ []) (t ∷ q i)) where
    placed : Contents
    placed = put_at q i (q i ++ t ∷ [])

    placed_events : HasEvents m2 tw placed
    unfolding placed
    placed_events a (j, hj, there) =
        rw (same.item, same.events)
          (elim (Bool-cases (j == i)) [
            | inr other ↦ had_events a (j, hj, rw other at there)
            | inl here ↦ elim (mem-append a (q i) (t ∷ []) (rw here at there)) [
              | inl old ↦ had_events a (i, h, old)
              | inr last ↦ rw (eq_of_mem a t last, new.item) new.event_valid
            ]
          ])

    kept_links : (l : Ptr) (xs : List Ptr) → IsOutside tw l → IsLink m l xs → IsLink m2 l xs
    kept_links l xs out link =
        IsLink-frame l xs same (not-mem-cons l (link_at tw i) [] (out i h) refl)
          (λ a there.
            not-mem-cons a t (q i)
              (ne_of_mem a t xs there (not-mem_of_fresh m l null xs t free link.chain))
              (not-mem_of_link is link out i a h there))
          (IsLink-kept k free l xs link)

    pub timed :
        0 < d
        → IsWheel m2 tw (put_at q i (q i ++ t ∷ []))
        → Due m2.expire_time tw (put_at q i (q i ++ t ∷ []))
        → Registered m (with_item m2 e t) tw (put_at q i (q i ++ t ∷ [])) e t co
    unfolding placed
    timed some_time wheel due = record {
      ready = record {
        live = rw same.events new.event_valid;
        t_item = write_self m2.events.t_item e t;
        item_valid = rw same.item_live new.item_valid;
        place = inl (
          rw (same.expire_time, new.expire_time) some_time,
          (i, h, rw (==_refl i) (mem_right t (q i) (t ∷ []) (ground arith))),
        );
      };
      co_of = rw same.events new.co_of;
      is_timeout = rw same.events new.is_timeout;
      wheel = IsWheel-events m2 _ tw _ wheel;
      due = due;
      events = placed_events;
      links = λ l xs out link. IsLink-events m2 _ l xs (kept_links l xs out link);
    }

-- ===== src/Scheduler/Timeouts.antt =====
-- The second part of a round of `scheduler::event_loop`: the expired items are marked and moved
-- behind the active ones.
use batonlib.Base.{
  ℕ, zero, suc, ◌<◌, ◌≡◌, refl, ◌≢◌, ◌∙◌, true, List, [], ◌∷◌, ◌∈◌, first, length, arith,
  Bool-cases, inl, inr, ==→eq, ◌==◌,
}
use batonlib.Memory.{
  Ptr, null, Memory, Events, valid, valid-ne_null, write, write_self, write_ne, ok, mark_timeout,
}
use batonlib.Link.{Chain, IsLink}
use batonlib.Link.Frame.{Chain-agree}
use batonlib.TimeWheel.{TimeWheel}
use batonlib.TimeWheel.Ring.{Contents, link_at, IsWheel}
use batonlib.Scheduler.{mark_timeouts}

-- The events of the items `xs` marked, where `f` is the event of an item.
pub timed_out : (Ptr → Ptr) → List Ptr → Events → Events
timed_out f [] ev = ev
timed_out f (x ∷ xs) ev = timed_out f xs (mark_timeout ev (f x) true)

timed_out_live : (f : Ptr → Ptr) (xs : List Ptr) (ev : Events) → (timed_out f xs ev).live ≡ ev.live
unfolding timed_out
timed_out_live f [] ev = refl
timed_out_live f (x ∷ xs) ev = timed_out_live f xs (mark_timeout ev (f x) true)

pub timed_out_other :
    (f : Ptr → Ptr) (xs : List Ptr) (ev : Events) (e : Ptr)
    → ((a : Ptr) → a ∈ xs → e ≢ f a)
    → (timed_out f xs ev).is_timeout e ≡ ev.is_timeout e
unfolding timed_out
timed_out_other f [] ev e none = refl
timed_out_other f (x ∷ xs) ev e none =
    timed_out_other f xs (mark_timeout ev (f x) true) e (λ a h. none a (ground arith))
    ∙ write_ne ev.is_timeout (f x) true e (none x (ground arith))

timed_out_stays :
    (f : Ptr → Ptr) (xs : List Ptr) (ev : Events) (e : Ptr)
    → ev.is_timeout e ≡ true
    → (timed_out f xs ev).is_timeout e ≡ true
unfolding timed_out write
timed_out_stays f [] ev e h = h
timed_out_stays f (x ∷ xs) ev e h =
    timed_out_stays f xs (mark_timeout ev (f x) true) e (ground arith)

pub timed_out_in :
    (f : Ptr → Ptr) (xs : List Ptr) (ev : Events) (a : Ptr)
    → a ∈ xs
    → (timed_out f xs ev).is_timeout (f a) ≡ true
unfolding timed_out
timed_out_in f [] ev a h = absurd (cc)
timed_out_in f (x ∷ xs) ev a h = elim (Bool-cases (a == x)) [
  | inl e ↦ rw (==→eq a x e) (
      timed_out_stays f xs (mark_timeout ev (f x) true) (f x) (write_self ev.is_timeout (f x) true))
  | inr e ↦ timed_out_in f xs (mark_timeout ev (f x) true) a (ground arith)
]

-- Another memory of events leaves a link as it is.
pub IsLink-events :
    (m : Memory) (v : Events) (l : Ptr) (xs : List Ptr)
    → IsLink m l xs
    → IsLink (record m { events = v }) l xs
IsLink-events m v l xs is = record {
  live = is.live;
  head = is.head;
  tail = is.tail;
  chain =
      Chain-agree m (record m { events = v }) l null xs refl (λ a h. (refl, refl, refl)) is.chain;
}

pub IsWheel-events :
    (m : Memory) (v : Events) (tw : TimeWheel) (q : Contents)
    → IsWheel m tw q
    → IsWheel (record m { events = v }) tw q
IsWheel-events m v tw q is = record {
  positive = is.positive;
  width = is.width;
  links = λ i h. IsLink-events m v (link_at tw i) (q i) (is.links i h);
  distinct = is.distinct;
}

pub mark_timeouts_lem :
    (fuel : ℕ) (m : Memory) (l before : Ptr) (xs : List Ptr)
    → length xs < fuel
    → Chain m l before xs
    → ((a : Ptr) → a ∈ xs → valid m.events.live (m.item a) ≡ true)
    → mark_timeouts fuel (first xs) m ≡ ok tt (record m { events = timed_out m.item xs m.events })
unfolding mark_timeouts timed_out
mark_timeouts_lem zero m l before xs f c live = absurd (omega arith)
mark_timeouts_lem (suc fuel) m l before [] f c live = refl
mark_timeouts_lem (suc fuel) m l before (x ∷ xs) f (v, next, prev, t_link, o, rest) live =
    let ev = mark_timeout m.events (m.item x) true in
    let m' = record m { events = ev } in
    let here = live x (ground arith) in
    simp (valid-ne_null m.item_live x v, v, here, next)
      (mark_timeouts_lem fuel m' l x xs (omega arith)
        (Chain-agree m m' l x xs refl (λ a h. (refl, refl, refl)) rest)
        (λ a h. live a (ground arith)))

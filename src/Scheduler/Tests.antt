-- ===== src/Scheduler/Tests.antt =====
-- A round of the scheduler on the wheel of TimeWheel/Tests.antt: items 2 and 3 are reported, item 1
-- expires.
use batonlib.Base.{
  ◌<◌, ◌≡◌, refl, ◌≢◌, true, false, some, List, [], ◌+◌, ◌-◌, ◌==◌, if◌then◌else◌, sym, append_nil,
  mem-append, ◌++◌, Bool, Bool-cases, ==→ne, ◌∙◌, ne_of_not-mem, not-mem_tail, ◌∉◌, ap, ◌∷◌, ◌∈◌,
  inl, inr, arith, length, eq_of_mem,
}
use batonlib.Memory.{
  Ptr, null, Memory, Events, Cmd, pure, ◌>>=◌, valid, write, write_ne, write_self,
}
use batonlib.Memory.Returns.{Returns}
use batonlib.Link.{IsLink, Chain}
use batonlib.TimeWheel.{slot_index}
use batonlib.TimeWheel.Ring.{link_at}
use batonlib.TimeWheel.Take.{IsOutside, Enough, advanced}
use batonlib.TimeWheel.Take.Expired.{taken}
use batonlib.TimeWheel.Take.Exact.{expired}
use batonlib.TimeWheel.Tests.{sample, wheel, held, both, sample-IsWheel, sample-Due, sample-HasRoom}
use batonlib.Scheduler.{Scheduler, collect_round, run_active}
use batonlib.Scheduler.Ready.{AllReady, without_all}
use batonlib.Scheduler.Round.{HasEvents, Timed}
use batonlib.Scheduler.Run.{Popped}
use batonlib.Scheduler.Run.All.{Coroutines, Resumed, Ended, run_active_lem}
use batonlib.Scheduler.Register.{register_resumed}
use batonlib.Epoll.Watched.{new_co_epoll}
use batonlib.Int.{negsuc}
use batonlib.Scheduler.Whole.{collect_round_lem}

abbrev sch : Scheduler
sch = record { active_link = 12; timeout_link = 13; tw = wheel }

active-IsLink : IsLink (sample 0) 12 []
unfolding valid
active-IsLink = record { live = refl; head = refl; tail = refl; chain = tt }

timeout-IsLink : IsLink (sample 0) 13 []
unfolding valid
timeout-IsLink = record { live = refl; head = refl; tail = refl; chain = tt }

active-IsOutside : IsOutside wheel 12
active-IsOutside = both (λ i. 12 ≢ link_at wheel i) (omega arith) (omega arith)

timeout-IsOutside : IsOutside wheel 13
timeout-IsOutside = both (λ i. 13 ≢ link_at wheel i) (omega arith) (omega arith)

held-Enough : Enough 3 wheel held
held-Enough = both (λ i. length (held i) < 3) (omega arith) (omega arith)

reported-AllReady : AllReady (sample 0) wheel held (22 ∷ 23 ∷ []) (2 ∷ 3 ∷ [])
unfolding valid
reported-AllReady = (
  record {
    live = refl;
    t_item = refl;
    item_valid = refl;
    place = inl (omega arith, (1, omega arith, refl));
  },
  refl,
  (record { live = refl; t_item = refl; item_valid = refl; place = inr (refl, refl) }, refl, tt),
)

sample-HasEvents : HasEvents (sample 0) wheel held
unfolding valid
sample-HasEvents a (i, h, there) =
    both (λ i. a ∈ held i → valid (sample 0).events.live ((sample 0).item a) ≡ true)
      (λ k. let e : a ≡ 1 = eq_of_mem a 1 k in rw e refl)
      (λ k. let e : a ≡ 2 = eq_of_mem a 2 k in rw e refl) i h there

expired_one : length (expired wheel held 100) < 3
unfolding taken slot_index
expired_one = omega arith

expired_rest : length (expired wheel (without_all (2 ∷ 3 ∷ []) held) 100) < 3
unfolding taken slot_index
expired_rest = omega arith

collect_round_lem_example :
    Returns (collect_round 3 sch 100 (22 ∷ 23 ∷ []) (sample 0)) (λ result m'.
      (result ≡ some (record sch { tw = advanced wheel 100 }))
      × Timed
          (sample 0)
          m'
          wheel
          (advanced wheel 100)
          (without_all (2 ∷ 3 ∷ []) held)
          100
          12
          13
          (2 ∷ 3 ∷ []))
collect_round_lem_example =
    collect_round_lem 3 (sample 0) sch held 100 [] (22 ∷ 23 ∷ []) (2 ∷ 3 ∷ []) refl sample-HasRoom
      (sample-IsWheel 0) (sample-Due 0) sample-HasEvents reported-AllReady (omega arith)
      active-IsOutside timeout-IsOutside active-IsLink timeout-IsLink held-Enough expired_rest
      (omega arith) (omega arith)

-- Items 1 and 2 on link 10; the coroutine of an event has the event's address.
abbrev waiting : Memory
waiting =
    let m = sample 101 in
    record m {
      next = λ a. if a == 1 then 2 else 0;
      prev = λ a. if a == 2 then 1 else 0;
      t_link = λ a. 10;
      tail = λ l. if l == 10 then 2 else 0;
      events = record m.events { co = λ e. e };
    }

waiting-IsLink : IsLink waiting 10 (1 ∷ 2 ∷ [])
unfolding valid
waiting-IsLink = record {
  live = refl;
  head = refl;
  tail = refl;
  chain = (refl, refl, refl, refl, refl, (refl, refl, refl, refl, refl, tt));
}

-- A coroutine that waited in register_event for the event at its address, on no descriptor, and comes to
-- its end: it deletes the event and its item.
abbrev finishing : Ptr → Cmd (Unit {0})
finishing co = register_resumed new_co_epoll (negsuc 0) co (co - 20) >>= λ _. pure tt

-- The items that remain have their events, and those whose coroutines have been resumed are deleted.
abbrev Deleted : List Ptr → Memory → Type 0
Deleted done m =
    (m.item ≡ (λ a. 20 + a))
    × (m.events.co ≡ (λ e. e))
    × ((a : Ptr) → valid m.item_live a ≡ true → valid m.events.live (20 + a) ≡ true)
    × ((a : Ptr) → a ∈ done → (m.item_live a ≡ false) × (m.events.live (20 + a) ≡ false))

Chain-deleted :
    (m : Memory) (ev : Events) (l before x : Ptr) (xs : List Ptr)
    → x ∉ xs
    → Chain m l before xs
    → Chain (record m { item_live = write m.item_live x false; events = ev }) l before xs
unfolding valid
Chain-deleted m ev l before x [] out c = tt
Chain-deleted m ev l before x (y ∷ ys) out (v, next, prev, t_link, o, rest) =
    let ne : y ≢ x = λ e. ne_of_not-mem x y ys out (sym e) in
    (
      rw (valid, write_ne m.item_live x false y ne) v,
      next,
      prev,
      t_link,
      o,
      Chain-deleted m ev l y x ys (not-mem_tail x y ys out) rest,
    )

deleted-valid : (f : Ptr → Bool) (p a : Ptr) → a ≢ p → valid (write f p false) a ≡ valid f a
unfolding valid
deleted-valid f p a ne = rw (valid, write_ne f p false a ne) refl

deleted-not_valid : (f : Ptr → Bool) (p : Ptr) → valid (write f p false) p ≡ false
unfolding valid
deleted-not_valid f p = rw (valid, write_self f p false) (ground arith)

finishing-Returns :
    (m : Memory) (e x : Ptr) (Q : Unit {0} → Memory → Type 0)
    → valid m.item_live x ≡ true
    → valid m.events.live e ≡ true
    → e - 20 ≡ x
    → Q tt (record m {
      item_live = write m.item_live x false;
      events = record m.events { live = write m.events.live e false };
    })
    → Returns (finishing e m) Q
unfolding register_resumed
finishing-Returns m e x Q v ve back q = simp (ve, back, v) q

finishing-Deleted :
    (done : List Ptr) (m m1 : Memory) (x : Ptr) (xs : List Ptr)
    → Deleted done m
    → Popped m m1 10 x xs
    → Deleted (done ++ x ∷ []) (record m1 {
      item_live = write m1.item_live x false;
      events = record m1.events { live = write m1.events.live (20 + x) false };
    })
finishing-Deleted done m m1 x xs (items, cos, lives, gone) p =
    let still_lives : (a : Ptr)
        → valid (write m1.item_live x false) a ≡ true
        → valid (write m1.events.live (20 + x) false) (20 + a) ≡ true =
      λ a w. elim (Bool-cases (a == x)) [
        | inl same ↦
            let s : a ≡ x = ground arith in
            let no : valid (write m1.item_live x false) a ≡ false =
              ap (valid (write m1.item_live x false)) s ∙ deleted-not_valid m1.item_live x in
            absurd (cc (w, no))
        | inr other ↦
            let ne : a ≢ x = ==→ne a x other in
            deleted-valid m1.events.live (20 + x) (20 + a) (omega (arith, ne))
            ∙ rw p.same.events
                (lives a (rw p.same.item_live at (sym (deleted-valid m1.item_live x a ne) ∙ w)))
      ] in
    let now_gone : (a : Ptr)
        → a ∈ done ++ x ∷ []
        → (write m1.item_live x false a ≡ false)
          × (write m1.events.live (20 + x) false (20 + a) ≡ false) =
      λ a h. elim (Bool-cases (a == x)) [
        | inl same ↦
            let s : a ≡ x = ground arith in
            rw s (write_self m1.item_live x false, write_self m1.events.live (20 + x) false)
        | inr other ↦
            let ne : a ≢ x = ==→ne a x other in
            let (i, e) = gone a (elim (mem-append a done (x ∷ []) h) [
              | inl before ↦ before
              | inr last ↦ absurd (ne (eq_of_mem a x last))
            ]) in
            (
              write_ne m1.item_live x false a ne ∙ rw p.same.item_live i,
              write_ne m1.events.live (20 + x) false (20 + a) (omega (arith, ne))
                  ∙ rw p.same.events e,
            )
      ] in
    (p.same.item ∙ items, ap (λ e. e.co) p.same.events ∙ cos, still_lives, now_gone)

finishing-Resumed :
    (done : List Ptr) (m m1 : Memory) (x : Ptr) (xs : List Ptr)
    → Deleted done m
    → IsLink m 10 (x ∷ xs)
    → Popped m m1 10 x xs
    → Returns
        (finishing (m1.events.co (m1.item x)) m1)
        (λ _ m'. Resumed Deleted (λ m. 0) 10 done x xs m m')
finishing-Resumed done m m1 x xs (items, cos, lives, gone) is p =
    let (_, _, _, _, out, _) = is.chain in
    let item : m1.item ≡ (λ a. 20 + a) = p.same.item ∙ items in
    let co : m1.events.co ≡ (λ e. e) = ap (λ e. e.co) p.same.events ∙ cos in
    let v : valid m1.item_live x ≡ true = rw p.same.item_live is.chain.0 in
    let e : valid m1.events.live (20 + x) ≡ true = rw p.same.events (lives x is.chain.0) in
    let place : m1.events.co (m1.item x) ≡ 20 + x = rw (co, item) refl in
    rw place (
      finishing-Returns m1 (20 + x) x _ v e (omega arith) (record {
        added = [];
        link = rw append_nil (record {
          live = p.link.live;
          head = p.link.head;
          tail = p.link.tail;
          chain =
              Chain-deleted m1 (record m1.events { live = write m1.events.live (20 + x) false }) 10
                null x xs out p.link.chain;
        });
        held = finishing-Deleted done m m1 x xs (items, cos, lives, gone) p;
        paid = omega arith;
      }))

finishing-Coroutines : Coroutines finishing 10 Deleted (λ m. 0)
finishing-Coroutines = record {
  has_event =
      λ done m x xs (items, cos, lives, gone) is. (is.chain.0, rw items (lives x is.chain.0));
  resumed = finishing-Resumed;
}

waiting-Deleted : Deleted [] waiting
unfolding valid
waiting-Deleted = (refl, refl, λ a v. ground arith, λ a h. ground arith)

run_active_lem_example :
    Returns
      (run_active 3 10 finishing waiting)
      (λ _ m'. Ended Deleted (λ m. 0) 10 [] (1 ∷ 2 ∷ []) waiting m')
run_active_lem_example =
    run_active_lem finishing 10 Deleted (λ m. 0) finishing-Coroutines 3 [] waiting (1 ∷ 2 ∷ [])
      (omega arith) waiting-Deleted waiting-IsLink

-- ===== src/Coroutine/Turns.antt =====
-- The life of one coroutine.
use batonlib.Base.{
  ℕ, ◌≡◌, refl, ◌≢◌, sym, ap, ◌∙◌, inl, inr, true, Option, none, some, List, [], ◌∷◌, ◌++◌, ◌==◌,
  arith, Bool-cases, ==→eq, ==→ne, ne_of_mem, eq_of_mem,
}
use batonlib.Coroutine.{Coroutine, CoThread, set_object, new_coroutine, made, clear_co}
use batonlib.Coroutine.Events.{
  Event, creating, resuming, finishing, clearing, apply, over, IsSound, applies,
}
use batonlib.Coroutine.Switch.{there, set_self, set_other, resume_lem, finish_lem, delete_all_lem}
use batonlib.Coroutine.Kept.{runs, unused}

-- The same thread but for the addresses at which its objects are looked up.
pub record Same (t t' : CoThread) : Type 0 where
  pub objects : (a : ℕ) → t'.objects a ≡ t.objects a
  pub call_stack : t'.call_stack ≡ t.call_stack
  pub destroy_co : t'.destroy_co ≡ t.destroy_co
  pub running : t'.running ≡ t.running

abbrev pub life : (co stack_size base : ℕ) → List Event
life co stack_size base = creating co stack_size base ∷ resuming co ∷ finishing ∷ clearing ∷ []

applies_cons :
    (wrapper : ℕ) (e : Event) (es : List Event) (t t1 : CoThread) (o : Option CoThread)
    → apply wrapper e t ≡ some t1
    → applies wrapper es t1 ≡ o
    → applies wrapper (e ∷ es) t ≡ o
unfolding applies
applies_cons wrapper e es t t1 o run rest = rw (applies, run) rest

clear_co_lem :
    (t : CoThread) (co : ℕ)
    → t.destroy_co ≡ co ∷ []
    → over (t.objects co) ≡ true
    → (f : ℕ → Option Coroutine) × (clear_co t ≡ some (record t { objects = f; destroy_co = [] }))
      × (f co ≡ none)
      × ((a : ℕ) → a ≢ co → f a ≡ t.objects a)
unfolding clear_co
clear_co_lem t co q dead =
    let (f, run, gone, kept) =
      delete_all_lem (co ∷ []) t.objects (refl, tt) (λ a h. rw (eq_of_mem a co h) dead) in
    (f, rw (clear_co, q, run) refl, gone co (ground arith), λ a ne. kept a (ground arith))

-- In a thread as coroutines leave it, with nothing to be deleted: a coroutine that is made at a fresh
-- address, resumed, runs to its end and is cleared away leaves the thread as it was, with whoever
-- resumed it running.
pub life_lem :
    (main wrapper co size base : ℕ) (t : CoThread)
    → IsSound main t
    → t.objects co ≡ none
    → t.destroy_co ≡ []
    → (t' : CoThread) × (applies wrapper (life co size base) t ≡ some t') × Same t t'
unfolding applies apply
life_lem main wrapper co size base t s free idle =
    let c0 = new_coroutine size base in
    let c1 = made wrapper co c0 in
    let t0 : CoThread = record t { objects = set_object co (some c0) t.objects } in
    let (rest, at_top) = s.top in
    let (out, off) = unused main t s co free in
    let ne : t.running ≢ co = ne_of_mem t.running co t.call_stack (runs main t s) out in
    let (c, e) = there (t.objects t.running) (s.alive t.running (runs main t s)) in
    let f1 = set_object co (some c1) t0.objects in
    let run1 : f1 t.running ≡ some c =
      set_other t0.objects co (some c1) t.running ne
      ∙ set_other t.objects co (some c0) t.running ne
      ∙ e in
    let t1 : CoThread = record t0 { objects = f1; call_stack = co ∷ t.call_stack; running = co } in
    let o : Option Coroutine = some (record c1 { ended = true }) in
    let t2 : CoThread = record {
      objects = set_object co o f1;
      call_stack = t.running ∷ rest;
      destroy_co = t.destroy_co ++ co ∷ [];
      running = t.running;
    } in
    let (f3, run4, gone, kept) =
      clear_co_lem t2 co (ap (λ q. q ++ co ∷ []) idle) (rw (set_self f1 co o) refl) in
    let run2 = resume_lem t0 wrapper co c0 c rest at_top (set_self t.objects co (some c0)) run1 in
    let run3 =
      finish_lem t1 t.running c1 c rest (ap (λ xs. co ∷ xs) at_top) ne
        (set_self t0.objects co (some c1)) run1 in
    (
      record t2 { objects = f3; destroy_co = [] },
      applies_cons wrapper (creating co size base) (resuming co ∷ finishing ∷ clearing ∷ []) t t0 _
          refl
          (applies_cons wrapper (resuming co) (finishing ∷ clearing ∷ []) t0 t1 _ run2 (
            applies_cons wrapper finishing (clearing ∷ []) t1 t2 _ run3
              (applies_cons wrapper clearing [] t2 _ _ run4 refl))),
      record {
        objects = λ a. elim (Bool-cases (a == co)) [
          | inl k ↦ ap f3 (==→eq a co k) ∙ gone ∙ sym (ap t.objects (==→eq a co k) ∙ free)
          | inr k ↦
              let ne = ==→ne a co k in
              kept a ne
              ∙ set_other f1 co o a ne
              ∙ set_other t0.objects co (some c1) a ne
              ∙ set_other t.objects co (some c0) a ne
        ];
        call_stack = sym at_top;
        destroy_co = sym idle;
        running = refl;
      },
    )

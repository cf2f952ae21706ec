-- ===== src/Coroutine/Switch.antt =====
-- The operations, where the objects that they reach are there.
use batonlib.Base.{
  Distinct, ℕ, ◌≡◌, refl, ◌≢◌, ap, ◌∙◌, inl, inr, true, false, Option, none, some, List, [], ◌∷◌,
  ◌++◌, ◌∈◌, ◌∉◌, has, arith, Bool-cases, ==_refl, ne→==,
}
use batonlib.Coroutine.{
  Coroutine, CoThread, set_object, made, swap, resume, yield, finish, delete_coroutine, delete_all,
}
use batonlib.Coroutine.Events.{live, over}

pub there : (o : Option Coroutine) → live o ≡ true → (c : Coroutine) × (o ≡ some c)
there none h = absurd (cc)
there (some c) h = (c, refl)

dead_there : (o : Option Coroutine) → over o ≡ true → (c : Coroutine) × (o ≡ some c)
dead_there none h = absurd (cc)
dead_there (some c) h = (c, refl)

pub not_over : (o : Option Coroutine) → live o ≡ true → over o ≡ true → ⊥
not_over none h k = absurd (cc)
not_over (some c) h k = absurd (let off : live (some c) ≡ false = rw k refl in cc)

module _ (f : ℕ → Option Coroutine) (co : ℕ) (o : Option Coroutine) where
  pub set_self : set_object co o f co ≡ o
  set_self = rw (==_refl co) refl

  pub set_other : (a : ℕ) → a ≢ co → set_object co o f a ≡ f a
  set_other a ne = rw (ne→== a co ne) refl

pub made-live :
    (wrapper co : ℕ) (c : Coroutine) → live (some c) ≡ true → live (some (made wrapper co c)) ≡ true
unfolding made
made-live wrapper co c h = elim (Bool-cases c.start) [
  | inl on ↦ rw (made, on) h
  | inr off ↦ rw (made, off) h
]

module _ (t : CoThread) (co1 co2 : ℕ) (c1 c2 : Coroutine) where
  swap_lem :
      t.objects co1 ≡ some c1
      → t.objects co2 ≡ some c2
      → swap co1 co2 t ≡ some (record t { running = co2 })
  unfolding swap
  swap_lem e f = rw (swap, e, f) refl

  pub yield_lem :
      (rest : List ℕ)
      → t.call_stack ≡ co1 ∷ co2 ∷ rest
      → t.objects co1 ≡ some c1
      → t.objects co2 ≡ some c2
      → yield t ≡ some (record t { call_stack = co2 ∷ rest; running = co2 })
  unfolding yield swap
  yield_lem rest s e f = rw (yield, s, swap, e, f) refl

pub resume_lem :
    (t : CoThread) (wrapper co : ℕ) (c c1 : Coroutine) (rest : List ℕ)
    → t.call_stack ≡ t.running ∷ rest
    → t.objects co ≡ some c
    → set_object co (some (made wrapper co c)) t.objects t.running ≡ some c1
    → resume wrapper co t
      ≡ some (record {
        objects = set_object co (some (made wrapper co c)) t.objects;
        call_stack = co ∷ t.call_stack;
        destroy_co = t.destroy_co;
        running = co;
      })
unfolding resume
resume_lem t wrapper co c c1 rest s e e1 =
    let f = set_object co (some (made wrapper co c)) t.objects in
    rw (resume, e, s)
      (swap_lem (record t { objects = f; call_stack = co ∷ t.running ∷ rest }) t.running co c1
        (made wrapper co c) e1 (set_self t.objects co (some (made wrapper co c))))

-- Where a queue of ended coroutines is deleted, it takes each of them once.
pub delete_all_lem :
    (cos : List ℕ) (f : ℕ → Option Coroutine)
    → Distinct cos
    → ((a : ℕ) → a ∈ cos → over (f a) ≡ true)
    → (f' : ℕ → Option Coroutine) × (delete_all cos f ≡ some f')
      × ((a : ℕ) → a ∈ cos → f' a ≡ none)
      × ((a : ℕ) → a ∉ cos → f' a ≡ f a)
unfolding delete_all delete_coroutine
delete_all_lem [] f d o = (f, refl, λ a h. absurd (cc), λ a h. refl)
delete_all_lem (co ∷ cos) f (out, d) o =
    let (c, e) = dead_there (f co) (o co (ground arith)) in
    let f1 = set_object co none f in
    let keep : (a : ℕ) → a ≢ co → f1 a ≡ f a = set_other f co none in
    let (f', run, gone, kept) =
      delete_all_lem cos f1 d (λ a h. rw (keep a (λ e. cc)) (o a (ground arith))) in
    (
      f',
      rw (delete_all, delete_coroutine, e) run,
      λ a h. elim (Bool-cases (has a cos)) [
        | inl inside ↦ gone a inside
        | inr outside ↦
            let same : a ≡ co = ground arith in kept a outside ∙ ap f1 same ∙ set_self f co none
      ],
      λ a h. kept a (ground arith) ∙ keep a (λ e. ground arith),
    )

pub finish_lem :
    (t : CoThread) (co : ℕ) (c c2 : Coroutine) (rest : List ℕ)
    → t.call_stack ≡ t.running ∷ co ∷ rest
    → co ≢ t.running
    → t.objects t.running ≡ some c
    → t.objects co ≡ some c2
    → finish t
      ≡ some (record {
        objects = set_object t.running (some (record c { ended = true })) t.objects;
        call_stack = co ∷ rest;
        destroy_co = t.destroy_co ++ t.running ∷ [];
        running = co;
      })
unfolding finish
finish_lem t co c c2 rest s ne e1 e2 =
    let o : Option Coroutine = some (record c { ended = true }) in
    let t1 : CoThread = record t {
      objects = set_object t.running o t.objects;
      destroy_co = t.destroy_co ++ t.running ∷ [];
    } in
    rw (finish, e1)
      (yield_lem t1 t.running co (record c { ended = true }) c2 rest s
        (set_self t.objects t.running o) (set_other t.objects t.running o co ne ∙ e2))

-- ===== src/Coroutine/Kept.antt =====
-- Every operation keeps the threads' invariant.
use batonlib.Base.{
  Distinct, ℕ, ◌≡◌, refl, ◌≢◌, sym, ap, ◌∙◌, inl, inr, true, Option, none, some, List, [], ◌∷◌,
  ◌++◌, ◌∈◌, ◌∉◌, has, ne_of_mem, not-mem-append, not-mem_tail, ne_of_not-mem, has-append, ◌==◌,
  arith, Bool-cases, ==→ne, ==→eq,
}
use batonlib.Coroutine.{
  Coroutine, CoThread, set_object, new_coroutine, made, resume, yield, finish, clear_co,
}
use batonlib.Coroutine.Events.{
  Event, creating, resuming, yielding, finishing, clearing, apply, live, over, Allowed, EndsWith,
  IsSound,
}
use batonlib.Coroutine.Switch.{
  there, not_over, set_self, set_other, made-live, yield_lem, resume_lem, finish_lem,
  delete_all_lem,
}

bottom-mem : (main : ℕ) (xs : List ℕ) → EndsWith main xs → main ∈ xs
bottom-mem main [] h = absurd h
bottom-mem main (x ∷ []) h = ground (arith, h)
bottom-mem main (x ∷ y ∷ xs) (ne, h) = ground (arith, bottom-mem main (y ∷ xs) h)

cons-EndsWith : (main co : ℕ) (xs : List ℕ) → EndsWith main xs → co ∉ xs → EndsWith main (co ∷ xs)
cons-EndsWith main co [] h out = absurd h
cons-EndsWith main co (x ∷ xs) h out =
    (λ e. ne_of_mem main co (x ∷ xs) (bottom-mem main (x ∷ xs) h) out (sym e), h)

tail-EndsWith :
    (main x : ℕ) (xs : List ℕ)
    → EndsWith main (x ∷ xs)
    → x ≢ main
    → (y : ℕ) × (ys : List ℕ) × (xs ≡ y ∷ ys) × EndsWith main (y ∷ ys)
tail-EndsWith main x [] h ne = absurd (ne h)
tail-EndsWith main x (y ∷ ys) (ne, h) _ = (y, ys, refl, h)

snoc-Distinct : (x : ℕ) (xs : List ℕ) → Distinct xs → x ∉ xs → Distinct (xs ++ x ∷ [])
snoc-Distinct x [] d out = (refl, tt)
snoc-Distinct x (y ∷ ys) (o, d) out =
    (not-mem-append y ys (x ∷ []) o (ground arith), snoc-Distinct x ys d (not-mem_tail x y ys out))

unfoldable pub Kept : ℕ → Option CoThread → Type 0
Kept main none = ⊥
Kept main (some t) = IsSound main t

pub outcome :
    (main : ℕ) (o : Option CoThread) → Kept main o → (t : CoThread) × (o ≡ some t) × IsSound main t
unfolding Kept
outcome main none s = absurd s
outcome main (some t) s = (t, refl, s)

module _ (main : ℕ) (t : CoThread) (s : IsSound main t) where
  pub runs : t.running ∈ t.call_stack
  runs = rw (s.top.1) (ground arith)

  pub out_of_stack : (a : ℕ) → over (t.objects a) ≡ true → a ∉ t.call_stack
  out_of_stack a h = elim (Bool-cases (has a t.call_stack)) [
    | inl inside ↦ absurd (not_over (t.objects a) (s.alive a inside) h)
    | inr outside ↦ outside
  ]

  -- An object that is on no list is set.
  set-IsSound :
      (co : ℕ) (o : Option Coroutine)
      → co ∉ t.call_stack
      → co ∉ t.destroy_co
      → IsSound main (record t { objects = set_object co o t.objects })
  set-IsSound co o out off = record {
    bottom = s.bottom;
    top = s.top;
    distinct = s.distinct;
    alive =
        λ a h. rw (set_other t.objects co o a (ne_of_mem a co t.call_stack h out)) (s.alive a h);
    once = s.once;
    dead = λ a h. rw (set_other t.objects co o a (ne_of_mem a co t.destroy_co h off)) (s.dead a h);
  }

  -- The running coroutine calls another one.
  push-IsSound :
      (co : ℕ)
      → live (t.objects co) ≡ true
      → co ∉ t.call_stack
      → IsSound main (record t { call_stack = co ∷ t.call_stack; running = co })
  push-IsSound co l out = record {
    bottom = cons-EndsWith main co t.call_stack s.bottom out;
    top = (t.call_stack, refl);
    distinct = (out, s.distinct);
    alive = λ a h. elim (Bool-cases (a == co)) [
      | inl e ↦ rw (==→eq a co e) l
      | inr ne ↦ s.alive a (ground arith)
    ];
    once = s.once;
    dead = s.dead;
  }

  pub unused : (co : ℕ) → t.objects co ≡ none → (co ∉ t.call_stack) × (co ∉ t.destroy_co)
  unused co free = (
    elim (Bool-cases (has co t.call_stack)) [
      | inl inside ↦ absurd (let h : live (t.objects co) ≡ true = s.alive co inside in cc)
      | inr outside ↦ outside
    ],
    elim (Bool-cases (has co t.destroy_co)) [
      | inl inside ↦ absurd (let h : over (t.objects co) ≡ true = s.dead co inside in cc)
      | inr outside ↦ outside
    ],
  )

  off_queue : (co : ℕ) → live (t.objects co) ≡ true → co ∉ t.destroy_co
  off_queue co l = elim (Bool-cases (has co t.destroy_co)) [
    | inl inside ↦ absurd (not_over (t.objects co) l (s.dead co inside))
    | inr outside ↦ outside
  ]

module _ (main : ℕ) (t : CoThread) (s : IsSound main t) (ne : t.running ≢ main) where
  -- Below the running coroutine stands another one.
  below : (y : ℕ) × (ys : List ℕ) × (t.call_stack ≡ t.running ∷ y ∷ ys)
  below =
      let (rest, at_top) = s.top in
      let (y, ys, e, b) = tail-EndsWith main t.running rest (rw at_top at s.bottom) ne in
      (y, ys, at_top ∙ ap (λ xs. t.running ∷ xs) e)

  pop-IsSound :
      (f : ℕ → Option Coroutine) (q : List ℕ) (y : ℕ) (ys : List ℕ)
      → t.call_stack ≡ t.running ∷ y ∷ ys
      → ((a : ℕ) → a ≢ t.running → f a ≡ t.objects a)
      → Distinct q
      → ((a : ℕ) → a ∈ q → over (f a) ≡ true)
      → IsSound main (record { objects = f; call_stack = y ∷ ys; destroy_co = q; running = y })
  pop-IsSound f q y ys e same once dead =
      let d : Distinct (t.running ∷ y ∷ ys) = rw e at s.distinct in
      let b : EndsWith main (t.running ∷ y ∷ ys) = rw e at s.bottom in
      record {
        bottom = b.1;
        top = (ys, refl);
        distinct = d.1;
        alive = λ a h.
            let inside : a ∈ t.call_stack = rw e (ground arith) in
            rw (same a (ne_of_mem a t.running (y ∷ ys) h d.0)) (s.alive a inside);
        once = once;
        dead = dead;
      }

  yielding-Kept : Kept main (yield t)
  unfolding Kept
  yielding-Kept =
      let (y, ys, e) = below in
      let (c1, e1) = there (t.objects t.running) (s.alive t.running (rw e (ground arith))) in
      let (c2, e2) = there (t.objects y) (s.alive y (rw e (ground arith))) in
      rw (yield_lem t t.running y c1 c2 ys e e1 e2)
        (pop-IsSound t.objects t.destroy_co y ys e (λ a h. refl) s.once s.dead)

  finishing-Kept : Kept main (finish t)
  unfolding Kept finish
  finishing-Kept =
      let (y, ys, e) = below in
      let l = s.alive t.running (rw e (ground arith)) in
      let (c, e1) = there (t.objects t.running) l in
      let o : Option Coroutine = some (record c { ended = true }) in
      let off = off_queue main t s t.running l in
      let d : Distinct (t.running ∷ y ∷ ys) = rw e at s.distinct in
      let (c2, e2) = there (t.objects y) (s.alive y (rw e (ground arith))) in
      let other = set_other t.objects t.running o in
      rw (finish_lem t y c c2 ys e (λ k. ne_of_not-mem t.running y ys d.0 (sym k)) e1 e2) (
        pop-IsSound (set_object t.running o t.objects) (t.destroy_co ++ t.running ∷ []) y ys e other
          (snoc-Distinct t.running t.destroy_co s.once off)
          (λ a h. elim (Bool-cases (a == t.running)) [
            | inl k ↦ rw (==→eq a t.running k, set_self t.objects t.running o) refl
            | inr k ↦
                let h' : a ∈ t.destroy_co =
                  ground (arith, has-append a t.destroy_co (t.running ∷ [])) in
                rw (other a (==→ne a t.running k)) (s.dead a h')
          ]))

clearing-Kept : (main : ℕ) (t : CoThread) → IsSound main t → Kept main (clear_co t)
unfolding Kept clear_co
clearing-Kept main t s =
    let (f, run, gone, kept) = delete_all_lem t.destroy_co t.objects s.once s.dead in
    rw (clear_co, run)
      (record {
        bottom = s.bottom;
        top = s.top;
        distinct = s.distinct;
        alive = λ a h. rw (kept a (off_queue main t s a (s.alive a h))) (s.alive a h);
        once = tt;
        dead = λ a h. absurd (cc);
      })

resuming-Kept :
    (main : ℕ) (t : CoThread) (wrapper co : ℕ)
    → IsSound main t
    → live (t.objects co) ≡ true
    → co ∉ t.call_stack
    → Kept main (resume wrapper co t)
unfolding Kept
resuming-Kept main t wrapper co s l out =
    let (c, e) = there (t.objects co) l in
    let c' = made wrapper co c in
    let t1 : CoThread = record t { objects = set_object co (some c') t.objects } in
    let s1 = set-IsSound main t s co (some c') out (off_queue main t s co l) in
    let e2 : t1.objects co ≡ some c' = set_self t.objects co (some c') in
    let l1 : live (t1.objects co) ≡ true = rw e2 (made-live wrapper co c (rw e at l)) in
    let (rest, at_top) = s.top in
    let (c1, e1) = there (t1.objects t.running) (s1.alive t.running (runs main t s)) in
    rw (resume_lem t wrapper co c c1 rest at_top e e1) (push-IsSound main t1 s1 co l1 out)

pub apply-Kept :
    (main wrapper : ℕ) (e : Event) (t : CoThread)
    → IsSound main t
    → Allowed main e t
    → Kept main (apply wrapper e t)
unfolding apply Allowed Kept
apply-Kept main wrapper (creating co size base) t s free =
    let (out, off) = unused main t s co free in
    set-IsSound main t s co (some (new_coroutine size base)) out off
apply-Kept main wrapper (resuming co) t s (l, out) = resuming-Kept main t wrapper co s l out
apply-Kept main wrapper yielding t s ne = yielding-Kept main t s ne
apply-Kept main wrapper finishing t s ne = finishing-Kept main t s ne
apply-Kept main wrapper clearing t s _ = clearing-Kept main t s

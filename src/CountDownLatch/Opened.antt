-- ===== src/CountDownLatch/Opened.antt =====
-- A latch opens with the last countdown, for everyone.
use batonlib.Base.{
  ℕ, suc, ◌-◌, ◌<◌, ◌≤◌, ◌≡◌, refl, sym, ap, ◌∙◌, ◌⊎◌, inl, inr, Bool, true, false, Option, none,
  some, Option-cases, unwrap, List, [], ◌∷◌, length, arith, Bool-cases, leb, ltb, ltb→lt, ◌==◌,
  if◌then◌else◌,
}
use batonlib.Int.{ℤ, pos, negsuc, ltbℤ, decr, ◌==ℤ◌}
use batonlib.Monitor.{new_condition, notify, proceed}
use batonlib.Monitor.Counts.{sleepers, notify-counts, notify_all-counts, proceed-counts}
use batonlib.CountDownLatch.{CountDownLatch, new_latch, wait, countdown}

-- `waking` is a wake-up without a signal.
pub data Event : Type 0 where
  waiting : Event
  waiting_again : (j : ℕ) → Event
  waking : (i : ℕ) → Event
  counting_down : Event

-- A latch, with the number of countdowns and of the waits that have returned.
pub record History : Type 0 where
  pub latch : CountDownLatch
  pub downs : ℕ
  pub passed : ℕ

unfoldable pub after_wait : History → Bool × CountDownLatch → History
after_wait h (true, l) = record h { latch = l; passed = suc h.passed }
after_wait h (false, l) = record h { latch = l }

-- `none` where no thread has been woken.
unfoldable pub apply : Event → History → Option History
unfolding after_wait
apply waiting h = some (after_wait h (wait h.latch))
apply (waiting_again j) h = elim (proceed j h.latch.cond) [
  | none ↦ none
  | some (_, c) ↦ some (after_wait h (wait (record h.latch { cond = c })))
]
apply (waking i) h = some (record h { latch = record h.latch { cond = notify i h.latch.cond } })
apply counting_down h = some (record h { latch = countdown h.latch; downs = suc h.downs })

unfoldable pub applies : List Event → History → Option History
applies [] h = some h
applies (e ∷ es) h = elim (apply e h) [ none ↦ none | some h' ↦ applies es h' ]

-- The count that is left of `n`, below 0 included.
pub diff : ℕ → ℕ → ℤ
diff n d = if leb d n then pos (n - d) else negsuc (d - n - 1)

decr-diff : (n d : ℕ) → decr (diff n d) ≡ diff n (suc d)
unfolding diff
decr-diff n d = elim (Bool-cases (leb (suc d) n)) [
  | inl more ↦
      let e : n - d ≡ suc (n - suc d) = ground arith in
      let le : leb d n ≡ true = ground arith in rw (le, more, e) refl
  | inr last ↦ elim (Bool-cases (leb d n)) [
    | inl le ↦
        let e : n - d ≡ 0 = ground arith in
        let z : suc d - n - 1 ≡ 0 = ground arith in rw (le, last, e, z) refl
    | inr gt ↦ let e : suc d - n - 1 ≡ suc (d - n - 1) = ground arith in rw (gt, last, e) refl
  ]
]

pos-diff : (n d : ℕ) → ltbℤ (pos 0) (diff n d) ≡ ltb d n
unfolding diff
pos-diff n d = ground arith

zero-diff : (n d : ℕ) → (diff n d ==ℤ pos 0) ≡ (d == n)
unfolding diff
zero-diff n d = ground arith

-- Of a latch for `n` countdowns: no wait returns before the last of them, and from then on nobody
-- sleeps.
pub record IsLatch (n : ℕ) (h : History) : Type 0 where
  pub left : h.latch.count ≡ diff n h.downs
  pub kept_shut : (h.passed ≡ 0) ⊎ (n ≤ h.downs)
  pub opened : (sleepers h.latch.cond ≡ 0) ⊎ (h.downs < n)

wait-IsLatch : (n : ℕ) (h : History) → IsLatch n h → IsLatch n (after_wait h (wait h.latch))
unfolding wait after_wait
wait-IsLatch n h s =
    let test : ltbℤ (pos 0) h.latch.count ≡ ltb h.downs n =
      ap (λ c. ltbℤ (pos 0) c) s.left ∙ pos-diff n h.downs in
    elim (Bool-cases (ltb h.downs n)) [
      | inl shut ↦
          rw (wait, test ∙ shut)
            (record {
              left = s.left;
              kept_shut = s.kept_shut;
              opened = inr (ltb→lt h.downs n shut);
            })
      | inr open_ ↦
          rw (wait, test ∙ open_)
            (record { left = s.left; kept_shut = inr (ground arith); opened = s.opened })
    ]

countdown-IsLatch :
    (n : ℕ) (h : History)
    → IsLatch n h
    → IsLatch n (record h { latch = countdown h.latch; downs = suc h.downs })
unfolding countdown
countdown-IsLatch n h s =
    let count : decr h.latch.count ≡ diff n (suc h.downs) = ap decr s.left ∙ decr-diff n h.downs in
    let test : (decr h.latch.count ==ℤ pos 0) ≡ (suc h.downs == n) =
      ap (λ c. c ==ℤ pos 0) count ∙ zero-diff n (suc h.downs) in
    let shut : (h.passed ≡ 0) ⊎ (n ≤ suc h.downs) = elim s.kept_shut [
      | inl z ↦ inl z
      | inr le ↦ inr (omega (arith, le))
    ] in
    elim (Bool-cases (suc h.downs == n)) [
      | inl last ↦
          rw (countdown, test ∙ last)
            (record {
              left = count;
              kept_shut = shut;
              opened = inl (notify_all-counts h.latch.cond).0;
            })
      | inr other ↦
          rw (countdown, test ∙ other)
            (record {
              left = count;
              kept_shut = shut;
              opened = elim s.opened [ inl z ↦ inl z | inr lt ↦ inr (ground arith) ];
            })
    ]

notify-IsLatch :
    (n i : ℕ) (h : History)
    → IsLatch n h
    → IsLatch n (record h { latch = record h.latch { cond = notify i h.latch.cond } })
notify-IsLatch n i h s = record {
  left = s.left;
  kept_shut = s.kept_shut;
  opened = elim (notify-counts i h.latch.cond) [
    | inl (none_waits, same) ↦ inl (rw same none_waits)
    | inr (one_less, one_more) ↦ elim s.opened [
      | inl z ↦ absurd (omega (arith, z, one_less))
      | inr lt ↦ inr lt
    ]
  ];
}

Keeps : ℕ → Option History → Type 0
Keeps n none = Unit
Keeps n (some h) = IsLatch n h

apply-IsLatch : (e : Event) (n : ℕ) (h : History) → IsLatch n h → Keeps n (apply e h)
unfolding apply Keeps
apply-IsLatch waiting n h s = wait-IsLatch n h s
apply-IsLatch (waiting_again j) n h s = elim (proceed-counts j h.latch.cond) [
  | inl (z, e) ↦ rw (e, apply) tt
  | inr (u, c, e, same, one_less) ↦
      rw (e, apply)
        (wait-IsLatch n (record h { latch = record h.latch { cond = c } })
          (record {
            left = s.left;
            kept_shut = s.kept_shut;
            opened = elim s.opened [ inl z ↦ inl (ap length same ∙ z) | inr lt ↦ inr lt ];
          }))
]
apply-IsLatch (waking i) n h s = notify-IsLatch n i h s
apply-IsLatch counting_down n h s = countdown-IsLatch n h s

kept : (o : Option History) (n : ℕ) (h : History) → Keeps n o → o ≡ some h → IsLatch n h
unfolding Keeps
kept none n h k e = cc
kept (some h') n h k e = rw (sym (ap (unwrap h') e)) k

applies-IsLatch :
    (es : List Event) (n : ℕ) (h h' : History) → IsLatch n h → applies es h ≡ some h' → IsLatch n h'
unfolding applies
applies-IsLatch [] n h h' s e = rw (sym (ap (unwrap h) e)) s
applies-IsLatch (ev ∷ es) n h h' s e = elim (Option-cases (apply ev h)) [
  | inl gone ↦ let e' = rw (gone, applies) at e in cc
  | inr (h1, there) ↦
      applies-IsLatch es n h1 h' (kept _ n h1 (apply-IsLatch ev n h s) there)
        (rw (there, applies) at e)
]

-- A latch for `n` countdowns, before its first use.
abbrev pub fresh : ℕ → History
fresh n = record { latch = new_latch (pos n); downs = 0; passed = 0 }

fresh-IsLatch : (n : ℕ) → IsLatch n (fresh n)
unfolding new_latch new_condition diff
fresh-IsLatch n = record { left = ground arith; kept_shut = inl refl; opened = inl refl }

-- Whatever the threads do, in whatever order and however they are woken: no wait of a latch for `n`
-- countdowns returns before the last of them, and from then on nobody sleeps in it; the count is
-- always what is left of `n`, below 0 included.
pub reached-IsLatch :
    (es : List Event) (n : ℕ) (h : History) → applies es (fresh n) ≡ some h → IsLatch n h
reached-IsLatch es n h r = applies-IsLatch es n (fresh n) h (fresh-IsLatch n) r

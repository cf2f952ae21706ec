-- ===== src/Monitor/Counts.antt =====
-- How many threads wait for a condition, and how many have been woken.
use batonlib.Base.{
  ℕ, zero, suc, ◌+◌, ◌≡◌, refl, ap, ◌⊎◌, inl, inr, Option, none, some, Option-cases, List, [], ◌∷◌,
  length, length-append, arith,
}
use batonlib.Monitor.{Condition, pick_out, wait, notify, notify_all, proceed}

module _ {A : Type 0} where
  abbrev pub sleepers : Condition A → ℕ
  sleepers c = length c.waiting

  abbrev pub risers : Condition A → ℕ
  risers c = length c.woken

  others : Option (A × List A) → List A
  others none = []
  others (some (a, rest)) = rest

  pub length-pick_out :
      (i : ℕ) (xs rest : List A) (a : A)
      → pick_out i xs ≡ some (a, rest)
      → length xs ≡ suc (length rest)
  unfolding pick_out others
  length-pick_out i [] rest a e = cc
  length-pick_out i (x ∷ []) rest a e = ap (λ o. suc (length (others o))) e
  length-pick_out zero (x ∷ y ∷ xs) rest a e = ap (λ o. suc (length (others o))) e
  length-pick_out (suc i) (x ∷ y ∷ xs) rest a e = elim (Option-cases (pick_out i (y ∷ xs))) [
    | inl h ↦ let e' = rw (h, pick_out) at e in cc
    | inr ((z, r), h) ↦
        let e' = rw (h, pick_out) at e in
        omega (arith, length-pick_out i (y ∷ xs) r z h, ap (λ o. length (others o)) e')
  ]

  pub pick_out_nil : (i : ℕ) (xs : List A) → pick_out i xs ≡ none → xs ≡ []
  unfolding pick_out
  pick_out_nil i [] e = refl
  pick_out_nil i (x ∷ []) e = cc
  pick_out_nil zero (x ∷ y ∷ xs) e = cc
  pick_out_nil (suc i) (x ∷ y ∷ xs) e = elim (Option-cases (pick_out i (y ∷ xs))) [
    | inl h ↦ let none_left = pick_out_nil i (y ∷ xs) h in cc
    | inr ((z, r), h) ↦ let e' = rw (h, pick_out) at e in cc
  ]

  -- Nobody waits and nothing happens, or one is woken.
  pub notify-counts :
      (i : ℕ) (c : Condition A)
      → ((sleepers c ≡ 0) × (notify i c ≡ c))
        ⊎ ((sleepers c ≡ suc (sleepers (notify i c))) × (risers (notify i c) ≡ suc (risers c)))
  unfolding notify
  notify-counts i c = elim (Option-cases (pick_out i c.waiting)) [
    | inl e ↦ inl (ap length (pick_out_nil i c.waiting e), rw (e, notify) refl)
    | inr ((a, rest), e) ↦
        rw (e, notify)
          (inr
            (length-pick_out i c.waiting rest a e, omega (arith, length-append c.woken (a ∷ []))))
  ]

  pub wait-counts :
      (a : A) (c : Condition A)
      → (sleepers (wait a c) ≡ suc (sleepers c)) × (risers (wait a c) ≡ risers c)
  unfolding wait
  wait-counts a c = (omega (arith, length-append c.waiting (a ∷ [])), refl)

  pub notify_all-counts :
      (c : Condition A)
      → (sleepers (notify_all c) ≡ 0) × (risers (notify_all c) ≡ risers c + sleepers c)
  unfolding notify_all
  notify_all-counts c = (refl, length-append c.woken c.waiting)

  -- Either one goes on, or there is none.
  pub proceed-counts :
      (i : ℕ) (c : Condition A)
      → ((risers c ≡ 0) × (proceed i c ≡ none))
        ⊎ ((a : A) × (c' : Condition A) × (proceed i c ≡ some (a, c'))
            × (c'.waiting ≡ c.waiting)
            × (risers c ≡ suc (risers c')))
  unfolding proceed
  proceed-counts i c = elim (Option-cases (pick_out i c.woken)) [
    | inl e ↦ inl (ap length (pick_out_nil i c.woken e), rw (e, proceed) refl)
    | inr ((a, rest), e) ↦ inr (
      a,
      record c { woken = rest },
      rw (e, proceed) refl,
      refl,
      length-pick_out i c.woken rest a e,
    )
  ]

-- ===== src/SysCall/Sends.antt =====
-- `co_write` and `co_send`: what has been handed to the kernel when they return.
use mathlib.Core.List.{append_assoc}
use batonlib.Base.{
  ℕ, zero, suc, ◌+◌, ◌<◌, ◌≤◌, ◌≡◌, refl, sym, ap, ◌∙◌, ◌⊎◌, inl, inr, true, false, none, some,
  List, ◌++◌, length, take, drop, take_add, length-drop, append_nil, arith, ltb, ltb→lt, Bool-cases,
  ◌==◌, if◌then◌else◌,
}
use batonlib.Int.{ℤ, pos, negsuc}
use batonlib.Linux.{Linux, Taking}
use batonlib.SysCall.{
  SocketInf, Infs, Call, returned, crashed, out_of_fuel, time_out, to_write, socket_inf_of,
  write_timeout, progress, is_true, write_rest, co_write, co_send,
}

-- What a call that writes `buf` tells, when `n` bytes of it have been taken: their number, when they are
-- all or a call of `write` for the rest has taken nothing; or that the time has run out, when they are
-- not all and a wait has said so; or, where there are none, what `told` has of the calls for `buf`.
abbrev pub Tells :
    {World : Type 0}
    → (write : List ℕ → World → ℤ × World) (wait : World → ℤ × World) (told : ℤ → Type 0) → List ℕ
    → ℕ
    → ℤ
    → Type 0
Tells {World} write wait told buf n r =
    ((r ≡ pos n)
      × (0 < n)
      × ((n ≡ length buf) ⊎ ((w : World) × (progress (write (drop n buf) w).0 ≡ none))))
    ⊎ ((r ≡ time_out) × (n < length buf) × ((w : World) × (is_true (wait w).0 ≡ true)))
    ⊎ ((n ≡ 0) × told r)

-- The call returns, and the first bytes of `buf`, and nothing else, have been taken.
abbrev pub Sends :
    {World : Type 0}
    → (World → List ℕ)
    → (write : List ℕ → World → ℤ × World) (wait : World → ℤ × World) (told : ℤ → Type 0) → List ℕ
    → World
    → Call (ℤ × World)
    → Type 0
Sends sent write wait told buf w (returned (r, w')) =
    (n : ℕ) × (n ≤ length buf) × (sent w' ≡ sent w ++ take n buf) × Tells write wait told buf n r
Sends sent write wait told buf w crashed = ⊥
Sends sent write wait told buf w out_of_fuel = ⊥

-- What a call for `buf` has returned that took nothing.
abbrev pub Refused : {World : Type 0} → (List ℕ → World → ℤ × World) → List ℕ → ℤ → Type 0
Refused {World} write buf r = (w : World) × (r ≡ (write buf w).0) × (progress r ≡ none)

progress-cases :
    (r : ℤ)
    → ((n : ℕ) × (r ≡ pos n) × (0 < n) × (progress r ≡ some n))
      ⊎ ((progress r ≡ none) × ((r ≡ pos 0) ⊎ ((n : ℕ) × (r ≡ negsuc n))))
progress-cases (pos (suc n)) = inl (suc n, refl, omega arith, refl)
progress-cases (pos zero) = inr (refl, inl refl)
progress-cases (negsuc n) = inr (refl, inr (n, refl))

-- Two pieces, one behind the other.
further :
    (m n : ℕ) (buf old : List ℕ)
    → (old ++ take m buf) ++ take n (drop m buf) ≡ old ++ take (m + n) buf
further m n buf old =
    append_assoc old (take m buf) (take n (drop m buf)) ∙ ap (◌++◌ old) (take_add m n buf)

module _ (l : Linux) {sent : l.World → List ℕ} {write : List ℕ → l.World → ℤ × l.World}
    {wait : l.World → ℤ × l.World} (t : Taking sent write wait) where
  none_taken :
      (bs : List ℕ) (w : l.World)
      → ((write bs w).0 ≡ pos 0) ⊎ ((n : ℕ) × ((write bs w).0 ≡ negsuc n))
      → sent (write bs w).1 ≡ sent w
  none_taken bs w (inl z) = t.taken bs w 0 z ∙ append_nil (sent w)
  none_taken bs w (inr (n, e)) = t.failed bs w n e

  first_told :
      (told : ℤ → Type 0) (buf : List ℕ) (size : ℕ) (w1 : l.World)
      → size ≡ 0
      → progress (write (drop size buf) w1).0 ≡ none
      → ((w1 : l.World) → progress (write buf w1).0 ≡ none → told (write buf w1).0)
      → told (write (drop size buf) w1).0
  first_told told buf zero w1 z p tells = tells w1 p
  first_told told buf (suc size) w1 z p tells = absurd (omega arith)

  -- What the loop returns when a call has written nothing.
  size_returned :
      (told : ℤ → Type 0) (buf : List ℕ) (size : ℕ) (w1 : l.World)
      → progress (write (drop size buf) w1).0 ≡ none
      → (size ≡ 0 → told (write (drop size buf) w1).0)
      → let r = (write (drop size buf) w1).0 in
        Tells write wait told buf size (if size == 0 then r else pos size)
  size_returned told buf zero w1 failed none_yet = inr (inr (refl, none_yet refl))
  size_returned told buf (suc size) w1 failed none_yet =
      let e : (suc size == 0) ≡ false = ground arith in
      rw e (inl (refl, omega arith, inr (w1, failed)))

  -- The loop, from `size` bytes on, where the last call returned `ret`.
  pub write_rest_lem :
      (told : ℤ → Type 0) (fuel : ℕ) (buf : List ℕ) (size : ℕ) (ret : ℤ) (w0 w : l.World)
      → length buf < size + fuel
      → size ≤ length buf
      → sent w ≡ sent w0 ++ take size buf
      → ((0 < size) × ((n : ℕ) × (progress ret ≡ some n)))
        ⊎ ((size ≡ 0)
            × ((n : ℕ) × (ret ≡ negsuc n))
            × told ret
            × ((w1 : l.World) → progress (write buf w1).0 ≡ none → told (write buf w1).0))
      → Sends sent write wait told buf w0 (write_rest l fuel write wait buf size ret w)
  unfolding write_rest
  write_rest_lem told zero buf size ret w0 w enough le so_far started = absurd (omega arith)
  write_rest_lem told (suc fuel) buf size ret w0 w enough le so_far started =
      elim (Bool-cases (ltb size (length buf))) [
        | inr done ↦
            rw (write_rest, done)
              (elim started [
                | inl (some_bytes, (n, some_n)) ↦
                    rw some_n (size, le, so_far, inl (refl, some_bytes, inl (ground arith)))
                | inr (none_yet, (n, e), here, _) ↦
                    rw (e, none_yet) (0, omega arith, rw none_yet at so_far, inr (inr (refl, here)))
              ])
        | inl more ↦
            let w1 = (wait w).1 in
            let r = (write (drop size buf) w1).0 in
            let w2 = (write (drop size buf) w1).1 in
            let here : sent w1 ≡ sent w0 ++ take size buf = t.waited w ∙ so_far in
            rw (write_rest, more)
              (elim (Bool-cases (is_true (wait w).0)) [
                | inl late ↦
                    rw late
                      (size, le, here, inr (inl (refl, ltb→lt size (length buf) more, (w, late))))
                | inr ready ↦ rw ready (elim (progress-cases r) [
                  | inl (n, e, some_n, p) ↦ rw p (
                      write_rest_lem told fuel buf (size + n) r w0 w2 (omega arith)
                        (omega (arith, t.bounded (drop size buf) w1 n e, length-drop size buf))
                        (t.taken (drop size buf) w1 n e ∙ rw here (further size n buf (sent w0)))
                        (inl (omega (arith, some_n), (n, p))))
                  | inr (p, failed) ↦ rw p (
                    size,
                    le,
                    none_taken (drop size buf) w1 failed ∙ here,
                    size_returned told buf size w1 p (λ z. elim started [
                      | inl (some_bytes, _) ↦ absurd (omega (arith, z, some_bytes))
                      | inr (_, _, _, tells) ↦ first_told told buf size w1 z p tells
                    ]),
                  )
                ])
              ])
      ]

module _ (l : Linux) (sent : l.World → List ℕ) (fd : ℤ) (inf : SocketInf) (infs : Infs)
    (known : socket_inf_of fd infs ≡ some inf) (buf : List ℕ) (fuel : ℕ) (w : l.World) where
  -- With more turns than bytes, co_write on a descriptor of the table returns, and the kernel has
  -- taken some of the first bytes of the buffer, in order and once. It returns their number, when they
  -- are all or `write` has taken nothing of the rest; or TIME_OUT, when they are not all and a wait has
  -- run out of time; or, when there are none, what the first `write` returned, 0 or less.
  pub co_write_lem :
      Taking sent (l.write fd) (l.co_register fd to_write (write_timeout inf))
      → length buf < fuel
      → Sends sent
          (l.write fd)
          (l.co_register fd to_write (write_timeout inf))
          (λ r. (r ≡ (l.write fd buf w).0) × (progress r ≡ none))
          buf
          w
          (co_write l fuel fd buf infs w)
  unfolding co_write
  co_write_lem t enough =
      rw (known, co_write)
        (elim (progress-cases (l.write fd buf w).0) [
          | inr (p, failed) ↦ rw p (
            0,
            omega arith,
            none_taken l t buf w failed ∙ sym (append_nil (sent w)),
            inr (inr (refl, (refl, p))),
          )
          | inl (n, e, some_n, p) ↦ rw p (
              write_rest_lem l t _ fuel buf n _ w _ (omega arith) (t.bounded buf w n e)
                (t.taken buf w n e) (inl (some_n, (n, p))))
        ])

  -- With more turns than bytes, co_send on a descriptor of the table returns, and the kernel has
  -- taken some of the first bytes of the buffer, in order and once. It returns their number, when they
  -- are all or `send` has taken nothing of the rest; or TIME_OUT, when they are not all and a wait has
  -- run out of time; or, when there are none, what a `send` for the buffer returned, 0 or less.
  pub co_send_lem :
      (flag : ℤ)
      → Taking sent (λ bs. l.send fd bs flag) (l.co_register fd to_write (write_timeout inf))
      → length buf < fuel
      → Sends sent
          (λ bs. l.send fd bs flag)
          (l.co_register fd to_write (write_timeout inf))
          (Refused (λ bs. l.send fd bs flag) buf)
          buf
          w
          (co_send l fuel fd buf flag infs w)
  unfolding co_send
  co_send_lem flag t enough =
      rw (known, co_send)
        (elim (progress-cases (l.send fd buf flag w).0) [
          | inr (p, inl e) ↦ rw e (
            0,
            omega arith,
            none_taken l t buf w (inl e) ∙ sym (append_nil (sent w)),
            inr (inr (refl, (w, sym e, refl))),
          )
          | inr (p, inr (n, e)) ↦ rw e (
              write_rest_lem l t _ fuel buf 0 (negsuc n) w _ (omega arith) (omega arith)
                (t.failed buf w n e ∙ sym (append_nil (sent w)))
                (inr (refl, (n, refl), (w, sym e, refl), λ w1 p. (w1, refl, p))))
          | inl (n, e, some_n, p) ↦
              let positive : (n == 0) ≡ false = ground arith in
              rw (e, positive)
                (write_rest_lem l t _ fuel buf n (pos n) w _ (omega arith) (t.bounded buf w n e)
                  (t.taken buf w n e) (inl (some_n, (n, rw e at p))))
        ])

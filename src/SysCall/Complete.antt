-- ===== src/SysCall/Complete.antt =====
-- `co_write` and `co_send` when nothing hinders them.
use batonlib.Base.{
  ℕ-cases, none, ℕ, zero, suc, ◌+◌, ◌<◌, ◌≤◌, ◌≡◌, refl, ap, ◌∙◌, inl, inr, some, List, ◌++◌,
  length, drop, length-drop, take-length, arith, ltb, Bool-cases,
}
use batonlib.Int.{ℤ, pos}
use batonlib.Linux.{Linux, Taking}
use batonlib.SysCall.{
  SocketInf, Infs, Call, returned, crashed, out_of_fuel, to_write, socket_inf_of, write_timeout,
  progress, is_true, write_rest, co_write,
}
use batonlib.SysCall.Sends.{Sends, Tells, co_write_lem}

-- No wait runs out of time, and every call takes something of what it is given.
pub record Steady {World : Type 0} (write : List ℕ → World → ℤ × World) (wait : World → ℤ × World)
    : Type 0 where
  pub ready : (w : World) → (wait w).0 ≡ pos 0
  pub moves : (bs : List ℕ) (w : World) → 0 < length bs → (n : ℕ) × ((write bs w).0 ≡ pos (suc n))

Gives : {World : Type 0} → ℤ → Call (ℤ × World) → Type 0
Gives r (returned (r', w')) = r' ≡ r
Gives r crashed = ⊥
Gives r out_of_fuel = ⊥

-- All of `buf` has been taken, and the call tells so.
abbrev pub SendsAll :
    {World : Type 0} → (World → List ℕ) → List ℕ → World → Call (ℤ × World) → Type 0
SendsAll sent buf w (returned (r, w')) = (r ≡ pos (length buf)) × (sent w' ≡ sent w ++ buf)
SendsAll sent buf w crashed = ⊥
SendsAll sent buf w out_of_fuel = ⊥

length_of_Tells :
    {World : Type 0} (write : List ℕ → World → ℤ × World) (wait : World → ℤ × World) (first : World)
    (buf : List ℕ) (n : ℕ)
    → Tells write wait
        (λ r. (r ≡ (write buf first).0) × (progress r ≡ none))
        buf
        n
        (pos (length buf))
    → 0 < length buf
    → n ≡ length buf
length_of_Tells write wait first buf n (inl (e, _, _)) some_bytes = ground arith
length_of_Tells write wait first buf n (inr (inl (e, _, _))) some_bytes = ground arith
length_of_Tells write wait first buf n (inr (inr (z, e))) some_bytes =
    absurd (elim (ℕ-cases (length buf)) [
      | inl none_there ↦ omega (arith, none_there)
      | inr (k, there) ↦ let bad : progress (pos (suc k)) ≡ none = rw there at e.1 in cc
    ])

all_of :
    {World : Type 0} (sent : World → List ℕ) (write : List ℕ → World → ℤ × World)
    (wait : World → ℤ × World) (buf : List ℕ) (w : World) (c : Call (ℤ × World))
    → 0 < length buf
    → Sends sent write wait (λ r. (r ≡ (write buf w).0) × (progress r ≡ none)) buf w c
    → Gives (pos (length buf)) c
    → SendsAll sent buf w c
unfolding Gives
all_of sent write wait buf w (returned (r, w')) some_bytes (n, le, so_far, tells) e =
    let all : n ≡ length buf = length_of_Tells write wait w buf n (rw e at tells) some_bytes in
    (e, so_far ∙ rw (all, take-length buf) refl)
all_of sent write wait buf w crashed some_bytes h e = h
all_of sent write wait buf w out_of_fuel some_bytes h e = h

module _ (l : Linux) {sent : l.World → List ℕ} {write : List ℕ → l.World → ℤ × l.World}
    {wait : l.World → ℤ × l.World} (t : Taking sent write wait) (s : Steady write wait) where
  write_rest-length :
      (fuel : ℕ) (buf : List ℕ) (size n : ℕ) (ret : ℤ) (w : l.World)
      → length buf < size + fuel
      → size ≤ length buf
      → progress ret ≡ some n
      → Gives (pos (length buf)) (write_rest l fuel write wait buf size ret w)
  unfolding write_rest Gives
  write_rest-length zero buf size n ret w enough le some_n = absurd (omega arith)
  write_rest-length (suc fuel) buf size n ret w enough le some_n =
      elim (Bool-cases (ltb size (length buf))) [
        | inr done ↦
            let e : size ≡ length buf = ground arith in rw (write_rest, done, some_n) (ap pos e)
        | inl more ↦
            let w1 = (wait w).1 in
            let (k, e) = s.moves (drop size buf) w1 (ground (arith, length-drop size buf)) in
            rw (write_rest, more, ap is_true (s.ready w), ap progress e)
              (write_rest-length fuel buf (size + suc k) (suc k) _ _ (omega arith)
                (omega (arith, t.bounded (drop size buf) w1 (suc k) e, length-drop size buf))
                (ap progress e))
      ]

module _ (l : Linux) (sent : l.World → List ℕ) (fd : ℤ) (inf : SocketInf) (infs : Infs)
    (known : socket_inf_of fd infs ≡ some inf) (buf : List ℕ) (some_bytes : 0 < length buf)
    (fuel : ℕ) (enough : length buf < fuel) (w : l.World) where
  -- When no wait runs out of time and every call of `write` takes something, co_write of a text that
  -- is not empty, to a descriptor of the table and with more turns than bytes, hands all of it to the
  -- kernel and returns its length.
  pub co_write-SendsAll :
      Taking sent (l.write fd) (l.co_register fd to_write (write_timeout inf))
      → Steady (l.write fd) (l.co_register fd to_write (write_timeout inf))
      → SendsAll sent buf w (co_write l fuel fd buf infs w)
  unfolding co_write
  co_write-SendsAll t s =
      let (n, e) = s.moves buf w some_bytes in
      all_of sent (l.write fd) (l.co_register fd to_write (write_timeout inf)) buf w _ some_bytes
        (co_write_lem l sent fd inf infs known buf fuel w t enough)
        (rw (co_write, known, ap progress e)
          (write_rest-length l t s fuel buf (suc n) (suc n) _ _ (omega arith)
            (t.bounded buf w (suc n) e) (ap progress e)))

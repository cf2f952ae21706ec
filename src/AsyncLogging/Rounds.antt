-- ===== src/AsyncLogging/Rounds.antt =====
-- Those who log and the writing thread, in any order.
use batonlib.Base.{
  ℕ, ◌<◌, ◌≡◌, ◌≢◌, refl, ◌⊎◌, inl, inr, true, Option, none, some, List, [], ◌∷◌, ◌++◌, length,
  take, length-append, arith, ltb, Bool-cases,
}
use batonlib.Int.{pos, ltbℤ}
use batonlib.Bytes.{Bytes}
use batonlib.LogStream.{LogBuffer, avail, reset}
use batonlib.AsyncLogging.{AsyncLogging, Writer, append, refill, is_new, limit, round}

-- What a step is: a line is appended, with the memory of the buffer that it may make, or the writing
-- thread goes round once.
pub data Step : Type 0 where
  appending : Bytes → List ℕ → Step
  writing : Step

unfoldable pub steps : List Step → Writer → AsyncLogging → Option (Writer × AsyncLogging)
steps [] t s = some (t, s)
steps (appending d line ∷ xs) t s = steps xs t (append d line s)
steps (writing ∷ xs) t s = elim (round t s) [ none ↦ none | some (t', s') ↦ steps xs t' s' ]

-- The thread has two empty buffers, and where there is no next buffer, there is a full one.
pub record IsReady (t : Writer) (s : AsyncLogging) : Type 0 where
  pub first_new : is_new t.new_buffer1 ≡ true
  pub second_new : is_new t.new_buffer2 ≡ true
  pub full : (s.next ≢ none) ⊎ (0 < length s.buffers)

pub append-IsReady :
    (d : Bytes) (line : List ℕ) (t : Writer) (s : AsyncLogging)
    → IsReady t s
    → IsReady t (append d line s)
unfolding append
append-IsReady d line t s r = elim (Bool-cases (ltbℤ (pos (length line)) (avail s.current))) [
  | inl room ↦
      rw (append, room)
        (record { first_new = r.first_new; second_new = r.second_new; full = r.full })
  | inr over ↦
      rw (append, over)
        (record {
          first_new = r.first_new;
          second_new = r.second_new;
          full = inr (omega (arith, length-append s.buffers (s.current ∷ [])));
        })
]

-- No assertion fails in a round, and the thread is ready for the next one.
pub Goes : Option (Writer × AsyncLogging) → Type 0
Goes none = ⊥
Goes (some (t, s)) = IsReady t s

take_two : (bs : List LogBuffer) → take 2 (take 2 bs) ≡ take 2 bs
take_two [] = refl
take_two (b ∷ []) = refl
take_two (b ∷ c ∷ bs) = refl

take-limit : (bs : List LogBuffer) → take 2 (limit bs) ≡ take 2 bs
unfolding limit
take-limit bs = elim (Bool-cases (ltb 25 (length bs))) [
  | inl many ↦ rw (limit, many) (take_two bs)
  | inr few ↦ rw (limit, few) refl
]

-- A round, by what the pointers are.
round_of :
    (new1 new2 : Option LogBuffer) (output : List (List ℕ)) (current : LogBuffer)
    (next : Option LogBuffer) (buffers : List LogBuffer)
    → is_new new1 ≡ true
    → is_new new2 ≡ true
    → (next ≢ none) ⊎ (0 < length buffers)
    → Goes (
        round
          (record { new_buffer1 = new1; new_buffer2 = new2; output = output })
          (record { current = current; next = next; buffers = buffers }))
unfolding round Goes refill reset
round_of none new2 output current next buffers h1 h2 full = cc
round_of (some b1) none output current next buffers h1 h2 full = cc
round_of (some b1) (some b2) output current none [] h1 h2 (inl some_next) = absurd (some_next refl)
round_of (some b1) (some b2) output current none [] h1 h2 (inr some_full) = absurd (omega arith)
round_of (some b1) (some b2) output current none (b ∷ []) h1 h2 full =
    rw (round, h1, h2) (record { first_new = refl; second_new = refl; full = inl (λ e. cc) })
round_of (some b1) (some b2) output current none (b ∷ c ∷ bs) h1 h2 full =
    rw (round, h1, h2, take-limit (b ∷ c ∷ bs ++ current ∷ []))
      (record { first_new = refl; second_new = refl; full = inl (λ e. cc) })
round_of (some b1) (some b2) output current (some n) [] h1 h2 full =
    rw (round, h1, h2) (record { first_new = refl; second_new = h2; full = inl (λ e. cc) })
round_of (some b1) (some b2) output current (some n) (b ∷ []) h1 h2 full =
    rw (round, h1, h2) (record { first_new = refl; second_new = h2; full = inl (λ e. cc) })
round_of (some b1) (some b2) output current (some n) (b ∷ c ∷ bs) h1 h2 full =
    rw (round, h1, h2, take-limit (b ∷ c ∷ bs ++ current ∷ []))
      (record { first_new = refl; second_new = h2; full = inl (λ e. cc) })

pub outcome :
    (o : Option (Writer × AsyncLogging))
    → Goes o
    → (t : Writer) × (s : AsyncLogging) × (o ≡ some (t, s)) × IsReady t s
unfolding Goes
outcome none h = absurd h
outcome (some (t, s)) h = (t, s, refl, h)

pub round-IsReady : (t : Writer) (s : AsyncLogging) → IsReady t s → Goes (round t s)
round-IsReady t s r =
    round_of t.new_buffer1 t.new_buffer2 t.output s.current s.next s.buffers r.first_new
      r.second_new r.full

-- However many lines are appended, in whatever order with the rounds of the writing thread, no
-- assertion of the thread fails: it begins every round with two empty buffers, as it does the first.
pub steps-IsReady :
    (xs : List Step) (t : Writer) (s : AsyncLogging) → IsReady t s → Goes (steps xs t s)
unfolding steps Goes
steps-IsReady [] t s r = r
steps-IsReady (appending d line ∷ xs) t s r = steps-IsReady xs t _ (append-IsReady d line t s r)
steps-IsReady (writing ∷ xs) t s r =
    let (t', s', e, r') = outcome (round t s) (round-IsReady t s r) in
    rw (steps, e) (steps-IsReady xs t' s' r')

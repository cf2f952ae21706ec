-- ===== src/AsyncLogging/Held.antt =====
-- What waits in the buffers, and what `append` adds to it.
use mathlib.Core.List.{append_assoc}
use batonlib.Base.{
  ℕ, suc, ◌<◌, ◌≤◌, ◌≡◌, refl, sym, ap, ◌∙◌, inl, inr, true, Option, none, some, List, [], ◌∷◌,
  ◌++◌, map, length, length-append, append_nil, arith, ltb→lt, leb, Bool-cases,
}
use batonlib.Int.{pos, ltbℤ}
use batonlib.Bytes.{Bytes, get_bytes}
use batonlib.LogStream
use batonlib.LogStream.{LogBuffer, contents, avail, ksmallbuffer, new_log_buffer, reset}
use batonlib.LogStream.Buffer.{IsFit, append-Written}
use batonlib.AsyncLogging.{AsyncLogging, next_current, append}

abbrev pub concat : List (List ℕ) → List ℕ
concat [] = []
concat (x ∷ xs) = x ++ concat xs

pub concat-append : (xs : List (List ℕ)) (x : List ℕ) → concat (xs ++ x ∷ []) ≡ concat xs ++ x
concat-append [] x = append_nil x
concat-append (y ∷ xs) x = ap (◌++◌ y) (concat-append xs x) ∙ sym (append_assoc y (concat xs) x)

-- What waits in the buffers.
abbrev pub held : AsyncLogging → List ℕ
held s = concat (map (λ b. contents b) s.buffers) ++ contents s.current

pub map-append :
    (bs : List LogBuffer) (b : LogBuffer)
    → map (λ x. contents x) (bs ++ b ∷ []) ≡ map (λ x. contents x) bs ++ contents b ∷ []
map-append [] b = refl
map-append (c ∷ bs) b = ap (◌∷◌ (contents c)) (map-append bs b)

-- The current buffer has room, and the next one is empty.
pub record IsSound (s : AsyncLogging) : Type 0 where
  pub fits : IsFit s.current
  pub next_new : (b : LogBuffer) → s.next ≡ some b → b.cur ≡ 0

append_empty :
    (line : List ℕ) (b : LogBuffer)
    → b.cur ≡ 0
    → length line < ksmallbuffer
    → (contents (LogStream.append line b) ≡ line) × IsFit (LogStream.append line b)
unfolding get_bytes
append_empty line b new short = elim (append-Written line b (rw new (omega arith))) [
  | inl (room, p) ↦ (p.text ∙ rw new refl, p.fits)
  | inr (over, e) ↦ absurd (omega (arith, new))
]

append_room :
    (line : List ℕ) (b : LogBuffer)
    → IsFit b
    → ltbℤ (pos (length line)) (avail b) ≡ true
    → (contents (LogStream.append line b) ≡ contents b ++ line) × IsFit (LogStream.append line b)
append_room line b fit room = elim (append-Written line b fit) [
  | inl (_, p) ↦ (p.text, p.fits)
  | inr (over, e) ↦
      let whole : leb b.cur ksmallbuffer ≡ true = ground arith in
      absurd (omega (arith, ltb→lt _ _ (rw whole at room)))
]

chosen_new :
    (d : Bytes) (next : Option LogBuffer)
    → ((b : LogBuffer) → next ≡ some b → b.cur ≡ 0)
    → (next_current d next).cur ≡ 0
unfolding new_log_buffer
chosen_new d none new = refl
chosen_new d (some b) new = new b refl

-- Nothing but the line is added, behind what is held.
pub append_held :
    (d : Bytes) (line : List ℕ) (s : AsyncLogging)
    → IsSound s
    → length line < ksmallbuffer
    → (held (append d line s) ≡ held s ++ line)
      × IsSound (append d line s)
      × (length (append d line s).buffers ≤ suc (length s.buffers))
unfolding append
append_held d line s sound short = elim (Bool-cases (ltbℤ (pos (length line)) (avail s.current))) [
  | inl room ↦
      let (text, fit) = append_room line s.current sound.fits room in
      rw (append, room)
        (
          rw text (sym (append_assoc _ (contents s.current) line)),
          record { fits = fit; next_new = sound.next_new },
          omega arith,
        )
  | inr over ↦
      let b = next_current d s.next in
      let (text, fit) = append_empty line b (chosen_new d s.next sound.next_new) short in
      rw (append, over)
        (
          rw
              (
                text,
                map-append s.buffers s.current,
                concat-append (map (λ x. contents x) s.buffers) (contents s.current),
              )
              refl,
          record { fits = fit; next_new = λ b e. cc },
          omega (arith, length-append s.buffers (s.current ∷ [])),
        )
]

-- ===== src/AsyncLogging/Order.antt =====
-- The lines reach the log file once and in order, while the writing thread keeps up.
use mathlib.Core.List.{append_assoc}
use batonlib.Base.{
  ℕ, ◌+◌, ◌<◌, ◌≤◌, ◌≡◌, refl, sym, ap, ◌∙◌, inl, inr, true, false, ◌&&◌, Option, Option-cases,
  unwrap, none, some, List, [], ◌∷◌, ◌++◌, map, length, take, length-append, append_nil, arith, ltb,
  ==→eq, Bool-cases,
}
use batonlib.Bytes.{get_bytes}
use batonlib.LogStream.{LogBuffer, contents, ksmallbuffer}
use batonlib.AsyncLogging.Rounds.{
  Step, appending, writing, steps, IsReady, append-IsReady, outcome, round-IsReady,
}
use batonlib.AsyncLogging.{AsyncLogging, Writer, append, refill, is_new, limit, swap_next, round}
use batonlib.AsyncLogging.Held.{concat, concat-append, map-append, held, IsSound, append_held}

-- What a round that comes to its end has done.
pub round_out :
    (t t' : Writer) (s s' : AsyncLogging)
    → round t s ≡ some (t', s')
    → (t'.output ≡ t.output ++ map (λ b. contents b) (limit (s.buffers ++ s.current ∷ [])))
      × (s'.buffers ≡ [])
      × (some s'.current ≡ t.new_buffer1)
      × (s'.next ≡ (swap_next s.next t.new_buffer2).0)
unfolding round
round_out t t' s s' e = elim (Bool-cases (is_new t.new_buffer1 && is_new t.new_buffer2)) [
  | inr old ↦ let e0 = rw (round, old) at e in cc
  | inl new ↦ elim (Option-cases t.new_buffer1) [
    | inl h1 ↦ let e0 = rw (round, new, h1) at e in cc
    | inr (b1, h1) ↦
        elim (Option-cases (refill none (take 2 (limit (s.buffers ++ s.current ∷ []))))) [
          | inl h2 ↦ let e0 = rw (round, new, h1, h2) at e in cc
          | inr (r, h2) ↦ elim (Option-cases (refill (swap_next s.next t.new_buffer2).1 r.1)) [
            | inl h3 ↦ let e0 = rw (round, new, h1, h2, h3) at e in cc
            | inr (r', h3) ↦
                let p = ap (unwrap (t', s')) (rw (round, new, h1, h2, h3) at e) in
                (
                  sym (ap (λ x. x.0.output) p),
                  sym (ap (λ x. x.1.buffers) p),
                  sym (ap (λ x. some x.1.current) p) ∙ sym h1,
                  sym (ap (λ x. x.1.next) p),
                )
          ]
        ]
  ]
]

pub concat_both : (xs ys : List (List ℕ)) → concat (xs ++ ys) ≡ concat xs ++ concat ys
concat_both [] ys = refl
concat_both (x ∷ xs) ys =
    ap (◌++◌ x) (concat_both xs ys) ∙ sym (append_assoc x (concat xs) (concat ys))

pub held_lem :
    (s : AsyncLogging) → concat (map (λ b. contents b) (s.buffers ++ s.current ∷ [])) ≡ held s
held_lem s =
    ap concat (map-append s.buffers s.current)
    ∙ concat-append (map (λ b. contents b) s.buffers) (contents s.current)

pub limit_few : (bs : List LogBuffer) → length bs ≤ 25 → limit bs ≡ bs
unfolding limit
limit_few bs few = let e : ltb 25 (length bs) ≡ false = ground arith in rw (limit, e) refl

contents_new : (b : LogBuffer) → b.cur ≡ 0 → contents b ≡ []
unfolding get_bytes
contents_new b new = rw new refl

is_new_lem : (o : Option LogBuffer) (b : LogBuffer) → is_new o ≡ true → some b ≡ o → b.cur ≡ 0
is_new_lem o b new e = ==→eq b.cur 0 (rw (sym e) at new)

swap_new :
    (next new2 : Option LogBuffer)
    → ((b : LogBuffer) → next ≡ some b → b.cur ≡ 0)
    → is_new new2 ≡ true
    → (b : LogBuffer) → (swap_next next new2).0 ≡ some b
    → b.cur ≡ 0
swap_new none new2 h new b e = is_new_lem new2 b new (sym e)
swap_new (some c) new2 h new b e = h b e

-- The lines of some steps.
abbrev pub lines : List Step → List (List ℕ)
lines [] = []
lines (appending d line ∷ xs) = line ∷ lines xs
lines (writing ∷ xs) = lines xs

abbrev pub AllShort : List (List ℕ) → Type 0
AllShort [] = Unit
AllShort (x ∷ xs) = (length x < ksmallbuffer) × AllShort xs

-- What the file has been handed and what the buffers hold, one behind the other.
abbrev pub Delivers : List ℕ → Option (Writer × AsyncLogging) → Type 0
Delivers text none = ⊥
Delivers text (some (t, s)) = concat t.output ++ held s ≡ text

round_held :
    (t t' : Writer) (s s' : AsyncLogging)
    → IsReady t s
    → IsSound s
    → length s.buffers ≤ 24
    → round t s ≡ some (t', s')
    → (concat t'.output ++ held s' ≡ concat t.output ++ held s) × IsSound s' × (s'.buffers ≡ [])
round_held t t' s s' r sound few e =
    let (output, none_held, current, next) = round_out t t' s s' e in
    let new = is_new_lem t.new_buffer1 s'.current r.first_new current in
    let all = s.buffers ++ s.current ∷ [] in
    let same : limit all ≡ all =
      limit_few all (omega (arith, length-append s.buffers (s.current ∷ []))) in
    (
      rw (output, same, none_held, contents_new s'.current new)
          (append_nil _
            ∙ concat_both t.output (map (λ b. contents b) all)
            ∙ ap (λ x. concat t.output ++ x) (held_lem s)),
      record {
        fits = rw new (omega arith);
        next_new =
            λ b h. swap_new s.next t.new_buffer2 sound.next_new r.second_new b (sym next ∙ h);
      },
      none_held,
    )

deliver :
    (xs : List Step) (t : Writer) (s : AsyncLogging) (before : List ℕ)
    → concat t.output ++ held s ≡ before
    → IsReady t s
    → IsSound s
    → AllShort (lines xs)
    → length s.buffers + length (lines xs) ≤ 24
    → Delivers (before ++ concat (lines xs)) (steps xs t s)
unfolding steps
deliver [] t s before e r sound short few = e ∙ sym (append_nil before)
deliver (appending d line ∷ xs) t s before e r sound (short, shorts) few =
    let (h, sound', le) = append_held d line s sound short in
    rw (append_assoc before line (concat (lines xs))) at (
      deliver xs t (append d line s) (before ++ line)
        (rw h (sym (append_assoc (concat t.output) (held s) line) ∙ ap (λ x. x ++ line) e))
        (append-IsReady d line t s r) sound' shorts (omega arith))
deliver (writing ∷ xs) t s before e r sound short few =
    let (t', s', e', r') = outcome (round t s) (round-IsReady t s r) in
    let (h, sound', empty) = round_held t t' s s' r sound (omega arith) e' in
    rw (steps, e') (deliver xs t' s' before (h ∙ e) r' sound' short (rw empty (omega arith)))

-- While no line has 4000 bytes, and the buffers that are full and the lines of the steps are together
-- at most 24, no line is lost, repeated or moved: what the log file has been handed, and what the
-- buffers hold behind it, is what it was before the steps, and then their lines in order.
pub steps-Delivers :
    (xs : List Step) (t : Writer) (s : AsyncLogging)
    → IsReady t s
    → IsSound s
    → AllShort (lines xs)
    → length s.buffers + length (lines xs) ≤ 24
    → Delivers ((concat t.output ++ held s) ++ concat (lines xs)) (steps xs t s)
steps-Delivers xs t s r sound short few = deliver xs t s _ refl r sound short few

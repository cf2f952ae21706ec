-- ===== src/Logging/Lines.antt =====
-- A statement's line reaches the asynchronous log whole.
use batonlib.Base.{
  ℕ, ◌+◌, ◌<◌, ◌≤◌, ◌^◌, ◌≡◌, refl, sym, ap, ◌∙◌, inl, inr, some, List, [], ◌∷◌, ◌++◌, length,
  length-append, arith,
}
use batonlib.Int.{ℤ}
use batonlib.Bytes.{Bytes, length-get_bytes, get_bytes}
use batonlib.LogStream.{
  LogBuffer, contents, ksmallbuffer, new_log_buffer, append, print_text, print_char, print_int,
}
use batonlib.LogStream.Buffer.{IsFit, append-Written}
use batonlib.LogStream.Digits.{magnitude}
use batonlib.LogStream.Integers.{read, print_int_lem}
use batonlib.AsyncLogging.{AsyncLogging}
use batonlib.AsyncLogging.Held.{IsSound, held, append_held}
use batonlib.Logging.{Logging, format_time, new_logging, log_text, end_line, output, delete_logging}

-- A buffer with a text and a byte left.
record Holds (b : LogBuffer) (text : List ℕ) : Type 0 where
  is : contents b ≡ text
  fit : IsFit b

cur-Holds : (b : LogBuffer) (text : List ℕ) → Holds b text → b.cur ≡ length text
cur-Holds b text h = sym (length-get_bytes b.data_ 0 b.cur) ∙ ap length h.is

append-Holds :
    (buf : List ℕ) (b : LogBuffer) (text : List ℕ)
    → Holds b text
    → length text + length buf < ksmallbuffer
    → Holds (append buf b) (text ++ buf)
append-Holds buf b text h room = elim (append-Written buf b h.fit) [
  | inl (_, p) ↦ record { is = p.text ∙ ap (λ cs. cs ++ buf) h.is; fit = p.fits }
  | inr (full, _) ↦ absurd (omega (arith, full, room, cur-Holds b text h))
]

print_int-Holds :
    (v : ℤ) (b : LogBuffer) (text : List ℕ)
    → Holds b text
    → length text + 32 ≤ ksmallbuffer
    → magnitude v < 2 ^ 64
    → (b' : LogBuffer) × (cs : List ℕ) × (print_int v b ≡ some b')
      × (read cs ≡ some v)
      × (length cs ≤ 21)
      × Holds b' (text ++ cs)
print_int-Holds v b text h room small =
    let (b', run, out) = print_int_lem v b h.fit small in
    elim out [
      | inl (full, _) ↦ absurd (omega (arith, full, room, cur-Holds b text h))
      | inr (_, cs, p) ↦ (
        b',
        cs,
        run,
        p.value,
        p.short,
        record { is = p.printed.text ∙ ap (λ xs. xs ++ cs) h.is; fit = p.printed.fits },
      )
    ]

-- The whole line: the time, the text, the name, the number's digits and a newline.
abbrev pub line_of : (str_t msg filename cs : List ℕ) → List ℕ
line_of str_t msg filename cs =
    ((((str_t ++ msg) ++ 32 ∷ 45 ∷ 45 ∷ 32 ∷ []) ++ filename) ++ 58 ∷ []) ++ cs ++ 10 ∷ []

end_line-Holds :
    (l : Logging) (text : List ℕ)
    → Holds l.stream text
    → length text + length l.basename + 40 ≤ ksmallbuffer
    → magnitude l.line < 2 ^ 64
    → (b : LogBuffer) × (cs : List ℕ) × (end_line l ≡ some b)
      × (read cs ≡ some l.line)
      × (length cs ≤ 21)
      × Holds b ((((text ++ 32 ∷ 45 ∷ 45 ∷ 32 ∷ []) ++ l.basename) ++ 58 ∷ []) ++ cs ++ 10 ∷ [])
unfolding end_line print_text print_char
end_line-Holds l text h room small =
    let dashes : List ℕ = 32 ∷ 45 ∷ 45 ∷ 32 ∷ [] in
    let t1 = text ++ dashes in
    let t2 = t1 ++ l.basename in
    let t3 = t2 ++ 58 ∷ [] in
    let e1 = length-append text dashes in
    let e2 = length-append t1 l.basename in
    let e3 = length-append t2 (58 ∷ []) in
    let b1 = append dashes l.stream in
    let h1 = append-Holds dashes l.stream text h (omega (arith, room)) in
    let h2 = append-Holds l.basename b1 t1 h1 (omega (arith, room, e1)) in
    let b2 = append l.basename b1 in
    let h3 = append-Holds (58 ∷ []) b2 t2 h2 (omega (arith, room, e1, e2)) in
    let b3 = append (58 ∷ []) b2 in
    let (b4, cs, run, value, short, h4) =
      print_int-Holds l.line b3 t3 h3 (omega (arith, room, e1, e2, e3)) small in
    let h5 =
      append-Holds (10 ∷ []) b4 (t3 ++ cs) h4
        (omega (arith, room, e1, e2, e3, length-append t3 cs, short)) in
    (append (10 ∷ []) b4, cs, rw (end_line, run) refl, value, short, h5)

-- When the time, the text and the file's name leave 40 bytes of the stream's buffer, the end of a
-- statement hands its whole line to the asynchronous log, behind what that holds, with the number of the
-- line in digits that read back as it.
pub delete_logging_lem :
    (str_t msg filename : List ℕ) (line : ℤ) (d d' : Bytes) (s : AsyncLogging)
    → length str_t + length msg + length filename + 40 ≤ ksmallbuffer
    → magnitude line < 2 ^ 64
    → IsSound s
    → (s' : AsyncLogging) × (cs : List ℕ) × (delete_logging d'
          (log_text msg (new_logging str_t filename line d))
          s
        ≡ some s')
      × (read cs ≡ some line)
      × (held s' ≡ held s ++ line_of str_t msg filename cs)
      × IsSound s'
unfolding delete_logging log_text new_logging format_time print_text new_log_buffer output get_bytes
delete_logging_lem str_t msg filename line d d' s room small sound =
    let b0 = new_log_buffer d in
    let h0 : Holds b0 [] = record { is = refl; fit = omega arith } in
    let h1 = append-Holds str_t b0 [] h0 (omega (arith, room)) in
    let h2 = append-Holds msg (append str_t b0) str_t h1 (omega (arith, room)) in
    let l = log_text msg (new_logging str_t filename line d) in
    let e = length-append str_t msg in
    let (b, cs, run, value, short, h) =
      end_line-Holds l (str_t ++ msg) h2 (omega (arith, room, e)) small in
    let (text, sound', _) =
      append_held d' (contents b) s sound
        (omega (arith, h.fit, length-get_bytes b.data_ 0 b.cur)) in
    (
      output d' (contents b) s,
      cs,
      rw (delete_logging, run) refl,
      value,
      text ∙ ap (λ xs. held s ++ xs) h.is,
      sound',
    )

-- ===== src/AsyncLogging/Stops.antt =====
-- What happens to the lines of a log that is stopped.
use batonlib.Base.{
  ℕ, suc, ◌≡◌, refl, ◌≢◌, ap, ◌∙◌, false, Option, none, some, List, [], ◌∷◌, ◌++◌, Bool, length,
  length-append, map, ◌≤◌, arith,
}
use batonlib.LogStream.{contents}
use batonlib.Stdio.{Stdio, Pthread}
use batonlib.LogFile
use batonlib.LogFile.{LogFile}
use batonlib.LogFile.Flushes
use batonlib.LogFile.Flushes.{TakesAll, AreShort, joined, appends_early, flush_free}
use batonlib.AsyncLogging.{AsyncLogging, Writer, round, limit}
use batonlib.AsyncLogging.Held.{concat, held}
use batonlib.AsyncLogging.Rounds.{IsReady, outcome, round-IsReady}
use batonlib.AsyncLogging.Order.{held_lem, limit_few}
use batonlib.AsyncLogging.Loop.{
  in_turn, over, Logger, stop_logger, test_loop, write_out, turn, texts, stopping, testing, turning,
  apply, applies,
}

module _ (s : Stdio) (p : Pthread) (fuel : ℕ) where
  -- A log that is stopped, whose thread is in no turn.
  record IsFinal (output : List (List ℕ)) (l : Logger s) : Type 0 where
    off : l.running ≡ false
    idle : l.place ≢ in_turn
    same : l.writer.output ≡ output

  StaysFinal : List (List ℕ) → Option (Logger s) → Type 0
  StaysFinal output none = Unit
  StaysFinal output (some l) = IsFinal output l

joined-concat : (lines : List (List ℕ)) → joined lines ≡ concat lines
joined-concat [] = refl
joined-concat (line ∷ lines) = ap (λ x. line ++ x) (joined-concat lines)

texts_held : (log : AsyncLogging) → length log.buffers ≤ 24 → joined (texts log) ≡ held log
texts_held log few =
    let all = log.buffers ++ log.current ∷ [] in
    let same : limit all ≡ all =
      limit_few all (omega (arith, length-append log.buffers (log.current ∷ []))) in
    joined-concat (texts log) ∙ ap (λ bs. concat (map (λ b. contents b) bs)) same ∙ held_lem log

module _ (s : Stdio) (p : Pthread) (fuel n : ℕ) (takes : TakesAll s p) where
  write_out_lem :
      (lines : List (List ℕ)) (f : LogFile s)
      → AreShort lines
      → Flushes.IsReady s p f n (length lines)
      → (f' : LogFile s) × (write_out s p (suc fuel) lines f ≡ some f')
        × (s.text f'.file ≡ s.text f.file ++ joined lines)
        × (f'.ptr_mutex.held ≡ false)
  unfolding write_out
  write_out_lem lines f short r =
      let (f1, run, text, _, r1) = appends_early s p fuel n lines f takes short r in
      let (f2, run2, same, free) = flush_free s p f1 r1.free in
      (f2, rw (write_out, run) run2, same ∙ text, free)

  -- A log with at most 24 full buffers is stopped while its thread waits in a turn. Where the log file
  -- takes every text at once, the texts are shorter than 2 ^ 64, and they do not bring the file to the
  -- text at which it flushes itself, the thread ends behind this turn, without a failing assertion, and
  -- all that the log held stands behind what the file had.
  pub stop_in_turn :
      (log : AsyncLogging) (t : Writer) (f : LogFile s) (b : Bool)
      → IsReady t log
      → length log.buffers ≤ 24
      → AreShort (texts log)
      → Flushes.IsReady s p f n (length (texts log))
      → (l : Logger s) × (applies s p
            (suc fuel)
            (stopping ∷ turning ∷ testing ∷ [])
            (record { log = log; writer = t; file = f; running = b; place = in_turn })
          ≡ some l)
        × (l.place ≡ over)
        × (s.text l.file.file ≡ s.text f.file ++ held log)
  unfolding applies apply stop_logger turn test_loop
  stop_in_turn log t f b r few short room =
      let (t', log', e, r') = outcome (round t log) (round-IsReady t log r) in
      let (f1, run, text, free) = write_out_lem (texts log) f short room in
      let (f2, run2, same, _) = flush_free s p f1 free in
      (
        record { log = log'; writer = t'; file = f2; running = false; place = over },
        rw (applies, turn, e, run, run2) refl,
        refl,
        same ∙ text ∙ ap (λ x. s.text f.file ++ x) (texts_held log few),
      )

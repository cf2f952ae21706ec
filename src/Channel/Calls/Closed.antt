-- ===== src/Channel/Calls/Closed.antt =====
-- A channel after `close`.
use batonlib.Base.{◌≡◌, refl, ◌∙◌, true, List, [], ◌∷◌}
use batonlib.Channel.{put, get, close}
use batonlib.Channel.Calls.{Call, putting, getting, closing, Log, calls, call, after_put, after_get}

-- What a closed channel has handed out and accepted.
record IsFinal {A : Type 0} (log log' : Log A) : Type 0 where
  is_closed : log'.ch.is_closed ≡ true
  accepted : log'.accepted ≡ log.accepted
  taken : log'.taken ≡ log.taken

module _ {A : Type 0} where
  call-IsFinal : (c : Call A) (log : Log A) → log.ch.is_closed ≡ true → IsFinal log (call c log)
  unfolding call put get close after_put after_get
  call-IsFinal (putting co val) log h =
      simp h (record { is_closed = h; accepted = refl; taken = refl })
  call-IsFinal (getting co) log h = simp h (record { is_closed = h; accepted = refl; taken = refl })
  call-IsFinal closing log h = record { is_closed = refl; accepted = refl; taken = refl }

  -- On a closed channel no call is accepted or handed a value any more, not even one that is still in
  -- the queue, whatever is called afterwards.
  pub calls_closed :
      (cs : List (Call A)) (log : Log A)
      → log.ch.is_closed ≡ true
      → ((calls cs log).accepted ≡ log.accepted) × ((calls cs log).taken ≡ log.taken)
  unfolding calls
  calls_closed [] log h = (refl, refl)
  calls_closed (c ∷ cs) log h =
      let f = call-IsFinal c log h in
      let (a, t) = calls_closed cs (call c log) f.is_closed in (a ∙ f.accepted, t ∙ f.taken)

-- ===== src/Channel/Calls.antt =====
-- A channel after any sequence of calls.
pub mod Closed
use mathlib.Core.List.{append_assoc}
use batonlib.Base.{
  ℕ, zero, suc, ◌+◌, ◌-◌, ◌≤◌, ◌≡◌, refl, ◌≢◌, sym, ap, ◌∙◌, Bool, true, false, Option, none, some,
  List, [], ◌∷◌, ◌++◌, ◌==◌, ==→ne, length, length-append, append_nil, arith, Bool-cases, inl, inr,
}
use batonlib.Int.{ℤ, pos, ◌==ℤ◌}
use batonlib.Channel.{
  Co, Channel, Outcome, returned, waits, fault, new_channel, put, get, close, push, pop, wake_empty,
  wake_full,
}

-- What a coroutine asks of a channel, anew or resumed.
pub data Call (A : Type 0) : Type 0 where
  putting : Co → A → Call A
  getting : Co → Call A
  closing : Call A

-- A channel with the values that `put` accepted and those that `get` handed out, in order.
pub record Log (A : Type 0) : Type 0 where
  pub ch : Channel A
  pub accepted : List A
  pub taken : List A
  pub faulted : Bool

module _ {A : Type 0} where
  after_put : A → Log A → Outcome Bool × Channel A → Log A
  after_put val log (returned true, ch) = record log {
    ch = ch;
    accepted = log.accepted ++ val ∷ [];
  }
  after_put val log (returned false, ch) = record log { ch = ch }
  after_put val log (waits, ch) = record log { ch = ch }
  after_put val log (fault, ch) = record log { ch = ch; faulted = true }

  after_get : Log A → Outcome (Option A) × Channel A → Log A
  after_get log (returned (some val), ch) = record log { ch = ch; taken = log.taken ++ val ∷ [] }
  after_get log (returned none, ch) = record log { ch = ch }
  after_get log (waits, ch) = record log { ch = ch }
  after_get log (fault, ch) = record log { ch = ch; faulted = true }

  call : Call A → Log A → Log A
  call (putting co val) log = after_put val log (put co val log.ch)
  call (getting co) log = after_get log (get co log.ch)
  call closing log = record log { ch = close log.ch }

  -- The calls, the first one first.
  pub calls : List (Call A) → Log A → Log A
  calls [] log = log
  calls (c ∷ cs) log = calls cs (call c log)

-- The values come out in the order in which they went in, `size_` counts the waiting ones within the
-- capacity, and on a closed channel nobody waits.
pub record IsSound {A : Type 0} (log : Log A) : Type 0 where
  pub order : log.accepted ≡ log.taken ++ log.ch.queue
  pub counted : log.ch.size ≡ length log.ch.queue
  pub bounded : (c : ℕ) → log.ch.cap ≡ pos c → log.ch.size ≤ c
  pub woken : log.ch.is_closed ≡ true → (log.ch.empty ≡ []) × (log.ch.full ≡ [])
  pub runs : log.faulted ≡ false

ℤ-ne : (n c : ℕ) (k : ℤ) → (pos n ==ℤ k) ≡ false → k ≡ pos c → n ≢ c
ℤ-ne n c k h e = ==→ne n c (rw e at h)

module _ {A : Type 0} where
  wake_empty-IsSound :
      (cos : List Co) (log : Log A)
      → log.ch.is_closed ≡ false
      → IsSound log
      → IsSound (record log { ch = wake_empty cos log.ch })
  unfolding wake_empty
  wake_empty-IsSound [] log free s = s
  wake_empty-IsSound (co ∷ cos) log free s = record {
    order = s.order;
    counted = s.counted;
    bounded = s.bounded;
    woken = λ h. absurd (cc);
    runs = s.runs;
  }

  wake_full-IsSound :
      (cos : List Co) (log : Log A)
      → log.ch.is_closed ≡ false
      → IsSound log
      → IsSound (record log { ch = wake_full cos log.ch })
  unfolding wake_full
  wake_full-IsSound [] log free s = s
  wake_full-IsSound (co ∷ cos) log free s = record {
    order = s.order;
    counted = s.counted;
    bounded = s.bounded;
    woken = λ h. absurd (cc);
    runs = s.runs;
  }

  push-IsSound :
      (val : A) (log : Log A)
      → log.ch.is_closed ≡ false
      → (pos log.ch.size ==ℤ log.ch.cap) ≡ false
      → IsSound log
      → IsSound (record log { ch = push val log.ch; accepted = log.accepted ++ val ∷ [] })
  unfolding push
  push-IsSound val log free room s =
      wake_empty-IsSound log.ch.empty
        (record log {
          ch = record log.ch {
            is_yield = false;
            queue = log.ch.queue ++ val ∷ [];
            size = suc log.ch.size;
          };
          accepted = log.accepted ++ val ∷ [];
        })
        free
        (record {
          order =
              ap (λ xs. xs ++ val ∷ []) s.order ∙ append_assoc log.taken log.ch.queue (val ∷ []);
          counted = rw (length-append log.ch.queue (val ∷ [])) (omega (arith, s.counted));
          bounded = λ c e. omega (arith, s.bounded c e, ℤ-ne log.ch.size c log.ch.cap room e);
          woken = λ h. absurd (cc);
          runs = s.runs;
        })

  put-IsSound :
      (co : Co) (val : A) (log : Log A)
      → IsSound log
      → IsSound (after_put val log (put co val log.ch))
  unfolding put after_put
  put-IsSound co val log s = elim (Bool-cases log.ch.is_closed) [
    | inl closed ↦ simp closed s
    | inr free ↦ elim (Bool-cases (pos log.ch.size ==ℤ log.ch.cap)) [
      | inl at_cap ↦
          simp (free, at_cap)
            (record {
              order = s.order;
              counted = s.counted;
              bounded = s.bounded;
              woken = λ h. absurd (cc);
              runs = s.runs;
            })
      | inr room ↦ simp (free, room) (push-IsSound val log free room s)
    ]
  ]

  pop-IsSound :
      (vals : List A) (log : Log A)
      → log.ch.is_closed ≡ false
      → (log.ch.size == 0) ≡ false
      → log.ch.queue ≡ vals
      → IsSound log
      → IsSound (after_get log (pop vals log.ch))
  unfolding pop after_get
  pop-IsSound [] log free some_left e s =
      absurd (==→ne log.ch.size 0 some_left (s.counted ∙ ap length e))
  pop-IsSound (val ∷ vals) log free some_left e s =
      let counted : log.ch.size ≡ suc (length vals) = s.counted ∙ ap length e in
      wake_full-IsSound log.ch.full
        (record log {
          ch = record log.ch { is_yield = false; queue = vals; size = log.ch.size - 1 };
          taken = log.taken ++ val ∷ [];
        })
        free
        (record {
          order =
              s.order ∙ ap (λ xs. log.taken ++ xs) e ∙ sym (append_assoc log.taken (val ∷ []) vals);
          counted = omega (arith, counted);
          bounded = λ c k. omega (arith, s.bounded c k);
          woken = λ h. absurd (cc);
          runs = s.runs;
        })

  get-IsSound : (co : Co) (log : Log A) → IsSound log → IsSound (after_get log (get co log.ch))
  unfolding get pop after_get
  get-IsSound co log s = elim (Bool-cases log.ch.is_closed) [
    | inl closed ↦ simp closed s
    | inr free ↦ elim (Bool-cases (log.ch.size == 0)) [
      | inl at_zero ↦
          simp (free, at_zero)
            (record {
              order = s.order;
              counted = s.counted;
              bounded = s.bounded;
              woken = λ h. absurd (cc);
              runs = s.runs;
            })
      | inr some_left ↦ simp (free, some_left) (pop-IsSound log.ch.queue log free some_left refl s)
    ]
  ]

  call-IsSound : (c : Call A) (log : Log A) → IsSound log → IsSound (call c log)
  unfolding call close
  call-IsSound (putting co val) log s = put-IsSound co val log s
  call-IsSound (getting co) log s = get-IsSound co log s
  call-IsSound closing log s = record {
    order = s.order;
    counted = s.counted;
    bounded = s.bounded;
    woken = λ h. (refl, refl);
    runs = s.runs;
  }

  calls-IsSound : (cs : List (Call A)) (log : Log A) → IsSound log → IsSound (calls cs log)
  unfolding calls
  calls-IsSound [] log s = s
  calls-IsSound (c ∷ cs) log s = calls-IsSound cs (call c log) (call-IsSound c log s)

-- A new channel, before any call.
abbrev pub new_log : {A : Type 0} → ℤ → Log A
new_log cap_ = record { ch = new_channel cap_; accepted = []; taken = []; faulted = false }

-- Whatever calls coroutines make and in whatever order they are resumed, `get` never reads an empty
-- queue, the values that it hands out are those that `put` accepted, in their order and without the
-- ones still in the queue, `size_` is the length of the queue and at most the capacity where that
-- is not negative, and nobody waits for a condition of a closed channel.
pub calls_lem : {A : Type 0} (k : ℤ) (cs : List (Call A)) → IsSound (calls cs (new_log k))
unfolding new_channel
calls_lem k cs = calls-IsSound cs (new_log k) (record {
  order = refl;
  counted = refl;
  bounded = λ c e. omega arith;
  woken = λ h. (refl, refl);
  runs = refl;
})

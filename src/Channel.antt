-- ===== src/Channel.antt =====
-- Batonlib/channel.h: a queue between coroutines. A call is cut at its `yield`s: `put` and `get` run
-- from their start, or from a resumption, to their return or to the next wait. A condition is the
-- list of the coroutines that wait for it; a signal moves the first of them to the active ones.
pub mod Calls
mod Tests
use batonlib.Base.{
  ℕ, zero, suc, ◌+◌, ◌-◌, Bool, true, false, Option, none, some, List, [], ◌∷◌, ◌++◌, ◌==◌,
  if◌then◌else◌,
}
use batonlib.Int.{ℤ, pos, ◌==ℤ◌}

-- A coroutine, by its address.
abbrev pub Co : Type 0
Co = ℕ

-- `size` is an int in the source; `put` keeps it at most `cap` unless `cap` is negative.
pub record Channel (A : Type 0) : Type 0 where
  pub cap : ℤ
  pub size : ℕ
  pub is_yield : Bool
  pub is_closed : Bool
  pub empty : List Co
  pub full : List Co
  pub queue : List A
  pub active : List Co

-- How far a call comes: to its `return`, to a wait, or to a `front` of an empty queue.
pub data Outcome (R : Type 0) : Type 0 where
  returned : R → Outcome R
  waits : Outcome R
  fault : Outcome R

module _ {A : Type 0} where
  pub new_channel : ℤ → Channel A
  new_channel cap = record {
    cap = cap;
    size = 0;
    is_yield = false;
    is_closed = false;
    empty = [];
    full = [];
    queue = [];
    active = [];
  }

  wake_empty : List Co → Channel A → Channel A
  wake_empty [] ch = ch
  wake_empty (co ∷ cos) ch = record ch { empty = cos; active = ch.active ++ co ∷ [] }

  wake_full : List Co → Channel A → Channel A
  wake_full [] ch = ch
  wake_full (co ∷ cos) ch = record ch { full = cos; active = ch.active ++ co ∷ [] }

  push : A → Channel A → Channel A
  push val ch =
      wake_empty ch.empty
        (record ch { is_yield = false; queue = ch.queue ++ val ∷ []; size = suc ch.size })

  -- `put` by the coroutine `co`. The check of `close_` at its start and the one behind each wait
  -- are the same, so a resumed `put` does what a new one does.
  pub put : Co → A → Channel A → Outcome Bool × Channel A
  put co val ch =
      if ch.is_closed
      then (returned false, ch)
      else if pos ch.size ==ℤ ch.cap
      then (waits, record ch { is_yield = true; full = ch.full ++ co ∷ [] })
      else (returned true, push val ch)

  pop : List A → Channel A → Outcome (Option A) × Channel A
  pop [] ch = (fault, ch)
  pop (val ∷ vals) ch = (
    returned (some val),
    wake_full ch.full (record ch { is_yield = false; queue = vals; size = ch.size - 1 }),
  )

  -- `get` by the coroutine `co`, likewise; the value is returned, `none` with `false`.
  pub get : Co → Channel A → Outcome (Option A) × Channel A
  get co ch =
      if ch.is_closed
      then (returned none, ch)
      else if ch.size == 0
      then (waits, record ch { is_yield = true; empty = ch.empty ++ co ∷ [] })
      else pop ch.queue ch

  pub close : Channel A → Channel A
  close ch = record ch {
    is_closed = true;
    full = [];
    empty = [];
    active = (ch.active ++ ch.full) ++ ch.empty;
  }

-- ===== src/AsyncLogging.antt =====
-- Batonlib/base/AsyncLogging.cpp: the buffers between those who log and the writing thread. What a
-- call does with the mutex held is one step. A pointer is an option, where `none` is NULL.
pub mod Rounds
pub mod Held
pub mod Order
pub mod Loop
pub mod Stops
pub mod Tests
use batonlib.Base.{
  ℕ, suc, ◌+◌, Bool, true, false, ◌&&◌, Option, none, some, List, [], ◌∷◌, ◌++◌, map, length, take,
  ltb, ◌==◌, if◌then◌else◌,
}
use batonlib.Int.{pos, ltbℤ}
use batonlib.Bytes.{Bytes}
use batonlib.LogStream
use batonlib.LogStream.{LogBuffer, contents, avail, new_log_buffer, reset}

-- `Current_Buffer_`, `Next_Buffer_` and `Buffers_`.
pub record AsyncLogging : Type 0 where
  pub current : LogBuffer
  pub next : Option LogBuffer
  pub buffers : List LogBuffer

-- The locals of `thread_func_`, and the texts that it has handed to the log file, in their order.
pub record Writer : Type 0 where
  pub new_buffer1 : Option LogBuffer
  pub new_buffer2 : Option LogBuffer
  pub output : List (List ℕ)

-- The buffer that takes the place of a full one.
abbrev pub next_current : Bytes → Option LogBuffer → LogBuffer
next_current d none = new_log_buffer d
next_current d (some b) = b

-- `append`; `d` is the memory of the buffer that it may have to make.
pub append : Bytes → List ℕ → AsyncLogging → AsyncLogging
append d line s =
    if ltbℤ (pos (length line)) (avail s.current)
    then record s { current = LogStream.append line s.current }
    else record {
      current = LogStream.append line (next_current d s.next);
      next = none;
      buffers = s.buffers ++ s.current ∷ [];
    }

-- `back` and `pop_back` of a vector that begins with `b`.
pub back : LogBuffer → List LogBuffer → LogBuffer
back b [] = b
back b (c ∷ cs) = back c cs

pub pop_back : LogBuffer → List LogBuffer → List LogBuffer
pop_back b [] = []
pop_back b (c ∷ cs) = b ∷ pop_back c cs

-- `if (!newBuffer)`: the pointer and what is left to take from; `none` is an assertion that fails.
pub refill : Option LogBuffer → List LogBuffer → Option (Option LogBuffer × List LogBuffer)
unfolding back pop_back
refill (some b) spare = some (some b, spare)
refill none [] = none
refill none (b ∷ bs) = some (some (reset (back b bs)), pop_back b bs)

abbrev is_new : Option LogBuffer → Bool
is_new none = false
is_new (some b) = b.cur == 0

-- `Buffer_To_Write`, as it is written.
unfoldable pub limit : List LogBuffer → List LogBuffer
limit bs = if ltb 25 (length bs) then take 2 bs else bs

-- `if (!Next_Buffer_)`: what the two pointers are afterwards.
abbrev pub swap_next : (next new_buffer2 : Option LogBuffer) → Option LogBuffer × Option LogBuffer
swap_next none new_buffer2 = (new_buffer2, none)
swap_next (some b) new_buffer2 = (some b, new_buffer2)

-- A turn of the loop, from the end of its wait on, in which the calls of the log file return, as they do
-- in `turn` of AsyncLogging/Loop.antt unless that is blocked; `none` is an assertion that fails.
pub round : Writer → AsyncLogging → Option (Writer × AsyncLogging)
unfolding refill limit
round t s =
    if is_new t.new_buffer1 && is_new t.new_buffer2
    then (elim t.new_buffer1 [
      | none ↦ none
      | some b1 ↦
          let to_write = limit (s.buffers ++ s.current ∷ []) in
          let (next, new_buffer2) = swap_next s.next t.new_buffer2 in
          elim (refill none (take 2 to_write)) [
            | none ↦ none
            | some (new1, spare) ↦ elim (refill new_buffer2 spare) [
              | none ↦ none
              | some (new2, _) ↦ some (
                record {
                  new_buffer1 = new1;
                  new_buffer2 = new2;
                  output = t.output ++ map (λ b. contents b) to_write;
                },
                record { current = b1; next = next; buffers = [] },
              )
            ]
          ]
    ])
    else none

-- ===== src/Connection.antt =====
-- Batonlib/net/connection.cpp: the life of a connection. What the object and the table of sockets
-- hold when others may have changed them is read from the world. The callbacks are arguments.
pub mod Life
pub mod Timeouts
pub mod Stale
mod Tests
use batonlib.Base.{
  ℕ, zero, suc, ◌*◌, Bool, true, false, not, ◌&&◌, ◌||◌, Option, none, some, List, if◌then◌else◌,
}
use batonlib.Int.{ℤ, pos, negsuc, ◌==ℤ◌, ltbℤ, quot, rem, scale}
use batonlib.Linux.{Linux}
use batonlib.SysCall.{
  SocketInf, Infs, Call, returned, crashed, out_of_fuel, time_out, co_read, co_close,
}

pub data Statue : Type 0 where
  connected : Statue
  connecting : Statue
  close_by_server_timeout : Statue
  close_by_server_other : Statue
  close_by_client : Statue
  disconnected : Statue

-- `ended` is `end_`, `connection::close` makes it true, and `infs` is `g_socket_inf`; the callbacks see
-- the connection's statue.
pub record Connection (l : Linux) : Type 0 where
  pub fd : ℤ
  pub ended : l.World → Bool
  pub infs : l.World → Infs
  pub set_infs : Infs → l.World → l.World
  pub connected_cb : Statue → l.World → l.World
  pub receive_cb : List ℕ → Statue → l.World → l.World
  pub disconnected_cb : Statue → l.World → l.World

pub set_read_timeout : ℤ → SocketInf → SocketInf
set_read_timeout ms inf = record inf {
  read_sec = quot ms 1000;
  read_usec = scale (rem ms 1000) 1000;
}

pub set_write_timeout : ℤ → SocketInf → SocketInf
set_write_timeout ms inf = record inf {
  write_sec = quot ms 1000;
  write_usec = scale (rem ms 1000) 1000;
}

-- What a turn of the loop does with what `co_read` has returned.
pub data Next : Type 0 where
  received : Next
  again : Next
  closing : Statue → Next

abbrev eagain : ℤ
eagain = pos 11

abbrev eintr : ℤ
eintr = pos 4

pub after_read : (len errno : ℤ) → Next
after_read len errno =
    if ltbℤ (pos 0) len
    then received
    else if len ==ℤ time_out
    then closing close_by_server_timeout
    else if (errno ==ℤ eagain) || (errno ==ℤ eintr)
    then again
    else closing close_by_client

abbrev is_by_client : Statue → Bool
is_by_client close_by_client = true
is_by_client connected = false
is_by_client connecting = false
is_by_client close_by_server_timeout = false
is_by_client close_by_server_other = false
is_by_client disconnected = false

module _ (l : Linux) (c : Connection l) where
  open l use {World, errno}

  -- `while(!end_)`
  pub serve : ℕ → Statue → World → Call (Statue × World)
  unfolding after_read
  serve zero st w = out_of_fuel
  serve (suc fuel) st w =
      if c.ended w then returned (st, w) else elim (co_read l c.fd 2048 (c.infs w) w) [
        | crashed ↦ crashed
        | out_of_fuel ↦ out_of_fuel
        | returned ((len, buf), w1) ↦ elim (after_read len (errno w1)) [
          | received ↦ serve fuel st (c.receive_cb buf st w1)
          | again ↦ serve fuel st w1
          | closing st' ↦ returned (st', w1)
        ]
      ]

  -- What follows the loop: the statue that `DisconnectedCb_` sees is returned.
  pub finish : Statue → World → Statue × World
  finish st w =
      let last = if c.ended w && not (is_by_client st) then close_by_server_other else st in
      let w1 = c.disconnected_cb last w in
      let (_, infs, w2) = co_close l c.fd (c.infs w1) w1 in (last, c.set_infs infs w2)

  pub run : ℕ → World → Call (Statue × World)
  unfolding serve finish
  run fuel w = elim (serve fuel connecting (c.connected_cb connected w)) [
    | crashed ↦ crashed
    | out_of_fuel ↦ out_of_fuel
    | returned (st, w1) ↦ returned (finish st w1)
  ]

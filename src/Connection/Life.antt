-- ===== src/Connection/Life.antt =====
-- The life of a connection, from its callbacks to the closed socket.
use batonlib.Base.{
  ℕ, zero, suc, ◌<◌, ◌≡◌, refl, sym, ap, ◌∙◌, ◌⊎◌, inl, inr, Bool, true, false, not, ◌&&◌, none,
  some, List, [], arith, Bool-cases, if◌then◌else◌,
}
use batonlib.Int.{ℤ, ==ℤ_iff}
use batonlib.FdMap.{find}
use batonlib.Linux.{Linux}
use batonlib.SysCall.{
  SocketInf, Infs, Call, returned, crashed, out_of_fuel, time_out, to_read, is_true, socket_inf_of,
  read_timeout, co_read,
}
use batonlib.SysCall.Sockets.{IsKeyed, find-co_close}
use batonlib.Connection.{
  Statue, connected, connecting, close_by_server_timeout, close_by_server_other, close_by_client,
  Connection, Next, received, again, closing, after_read, is_by_client, serve, finish, run,
}

-- The statues that a connection can have when it is over.
abbrev pub IsOver : Statue → Type 0
IsOver st = (st ≡ close_by_server_timeout) ⊎ (st ≡ close_by_server_other) ⊎ (st ≡ close_by_client)

next_cases : (n : Next) → (n ≡ received) ⊎ (n ≡ again) ⊎ ((st : Statue) × (n ≡ closing st))
next_cases received = inl refl
next_cases again = inr (inl refl)
next_cases (closing st) = inr (inr (st, refl))

statue_of : Next → Statue
statue_of received = connecting
statue_of again = connecting
statue_of (closing st) = st

chosen :
    (a b d : Bool) (st : Statue)
    → (if a
        then received
        else if b
        then closing close_by_server_timeout
        else if d
        then again
        else closing close_by_client)
      ≡ closing st
    → (st ≡ close_by_server_timeout) ⊎ (st ≡ close_by_client)
unfolding statue_of
chosen true b d st e = cc
chosen false true d st e = inl (sym (ap statue_of e))
chosen false false true st e = cc
chosen false false false st e = inr (sym (ap statue_of e))

closing_cases :
    (len errno : ℤ) (st : Statue)
    → after_read len errno ≡ closing st
    → (st ≡ close_by_server_timeout) ⊎ (st ≡ close_by_client)
unfolding after_read
closing_cases len errno st e = chosen _ _ _ st e

last_cases :
    (ended : Bool) (st : Statue)
    → ((st ≡ connecting) × (ended ≡ true)) ⊎ (st ≡ close_by_server_timeout) ⊎ (st ≡ close_by_client)
    → IsOver (if ended && not (is_by_client st) then close_by_server_other else st)
last_cases ended st (inl (e, over)) = rw (e, over) (inr (inl refl))
last_cases true st (inr (inl e)) = rw e (inr (inl refl))
last_cases false st (inr (inl e)) = inl e
last_cases true st (inr (inr e)) = rw e (inr (inr refl))
last_cases false st (inr (inr e)) = inr (inr e)

module _ (l : Linux) (c : Connection l) where
  -- What is read in the world `w`, and what the next turn of the loop begins with.
  abbrev pub Reads : l.World → ℤ → List ℕ → l.World → Type 0
  Reads w len buf w1 = co_read l c.fd 2048 (c.infs w) w ≡ returned ((len, buf), w1)

  -- While the connection is served, `holds`: its socket is in the table, and every turn that goes on
  -- leaves less to do.
  pub record Served : Type 1 where
    pub holds : l.World → Type 0
    pub left : l.World → ℕ
    pub keyed : (w : l.World) → holds w → IsKeyed (c.infs w)
    pub open_inf :
        (w : l.World) → holds w → (inf : SocketInf) × (find c.fd (c.infs w) ≡ some (some inf))
    pub begins : (w : l.World) → holds w → holds (c.connected_cb connected w)
    pub receives :
        (w : l.World)
        → holds w
        → c.ended w ≡ false
        → (len : ℤ) (buf : List ℕ) (w1 : l.World) → Reads w len buf w1
        → after_read len (l.errno w1) ≡ received
        → let w2 = c.receive_cb buf connecting w1 in holds w2 × (left w2 < left w)
    pub tries_again :
        (w : l.World)
        → holds w
        → c.ended w ≡ false
        → (len : ℤ) (buf : List ℕ) (w1 : l.World) → Reads w len buf w1
        → after_read len (l.errno w1) ≡ again
        → holds w1 × (left w1 < left w)
    pub stops :
        (w : l.World)
        → holds w
        → c.ended w ≡ false
        → (len : ℤ) (buf : List ℕ) (w1 : l.World) (st : Statue) → Reads w len buf w1
        → after_read len (l.errno w1) ≡ closing st
        → holds w1
    pub ends : (w : l.World) (st : Statue) → holds w → holds (c.disconnected_cb st w)
    pub stored : (infs : Infs) (w : l.World) → c.infs (c.set_infs infs w) ≡ infs

  co_read-returns :
      (infs : Infs) (w : l.World) (inf : SocketInf)
      → find c.fd infs ≡ some (some inf)
      → (len : ℤ) × (buf : List ℕ) × (w1 : l.World) × (co_read l c.fd 2048 infs w
          ≡ returned ((len, buf), w1))
  unfolding co_read socket_inf_of
  co_read-returns infs w inf h =
      let r = l.co_register c.fd to_read (read_timeout inf) w in
      elim (Bool-cases (is_true r.0)) [
        | inl late ↦ (time_out, [], r.1, rw (co_read, socket_inf_of, h, late) refl)
        | inr ready ↦
            let x = l.read c.fd 2048 r.1 in
            (x.0.0, x.0.1, x.1, rw (co_read, socket_inf_of, h, ready) refl)
      ]

  -- The connection is over, and its entry has gone from the table.
  abbrev pub Ends : Call (Statue × l.World) → Type 0
  Ends (returned (st, w)) = IsOver st × (find c.fd (c.infs w) ≡ none)
  Ends crashed = ⊥
  Ends out_of_fuel = ⊥

  module _ (s : Served) where
    -- The loop ends with a statue that says why, or because the connection was to be closed.
    abbrev Stopped : Call (Statue × l.World) → Type 0
    Stopped (returned (st, w)) =
        s.holds w
        × (((st ≡ connecting) × (c.ended w ≡ true))
            ⊎ (st ≡ close_by_server_timeout)
            ⊎ (st ≡ close_by_client))
    Stopped crashed = ⊥
    Stopped out_of_fuel = ⊥

    serve_lem :
        (fuel : ℕ) (w : l.World)
        → s.holds w
        → s.left w < fuel
        → Stopped (serve l c fuel connecting w)
    unfolding serve
    serve_lem zero w h enough = absurd (omega arith)
    serve_lem (suc fuel) w h enough = elim (Bool-cases (c.ended w)) [
      | inl over ↦ rw (serve, over) (h, inl (refl, over))
      | inr goes ↦
          let (inf, there) = s.open_inf w h in
          let (len, buf, w1, reads) = co_read-returns (c.infs w) w inf there in
          rw (serve, goes, reads)
            (elim (next_cases (after_read len (l.errno w1))) [
              | inl e ↦
                  let (h', less) = s.receives w h goes len buf w1 reads e in
                  rw e (serve_lem fuel _ h' (omega (arith, less)))
              | inr (inl e) ↦
                  let (h', less) = s.tries_again w h goes len buf w1 reads e in
                  rw e (serve_lem fuel _ h' (omega (arith, less)))
              | inr (inr (st, e)) ↦ rw e (
                s.stops w h goes len buf w1 st reads e,
                inr (closing_cases len (l.errno w1) st e),
              )
            ])
    ]

    finish_lem :
        (st : Statue) (w : l.World) → Stopped (returned (st, w)) → Ends (returned (finish l c st w))
    unfolding finish
    finish_lem st w (h, why) =
        let last = if c.ended w && not (is_by_client st) then close_by_server_other else st in
        let w1 = c.disconnected_cb last w in
        let h1 = s.ends w last h in
        let (inf, there) = s.open_inf w1 h1 in
        (
          last_cases (c.ended w) st why,
          ap (find c.fd) (s.stored _ _)
              ∙ find-co_close l c.fd c.fd (c.infs w1) w1 (s.keyed w1 h1)
              ∙ rw ((==ℤ_iff c.fd c.fd).1 refl, there) refl,
        )

    after_serve :
        (r : Call (Statue × l.World))
        → Stopped r
        → Ends (elim r [
          | crashed ↦ crashed
          | out_of_fuel ↦ out_of_fuel
          | returned (st, w1) ↦ returned (finish l c st w1)
        ])
    after_serve (returned (st, w)) h = finish_lem st w h
    after_serve crashed h = h
    after_serve out_of_fuel h = h

    -- While a connection is served, and with more turns than there is left to do, run returns. The
    -- statue that the last callback sees says that the time ran out, that the server closed the
    -- connection or that the client did; and the entry of the socket has gone from the table.
    pub run_lem :
        (fuel : ℕ) (w : l.World)
        → s.holds w
        → s.left (c.connected_cb connected w) < fuel
        → Ends (run l c fuel w)
    unfolding run
    run_lem fuel w h enough =
        after_serve (serve l c fuel connecting (c.connected_cb connected w))
          (serve_lem fuel _ (s.begins w h) enough)

-- ===== src/Connection/Stale.antt =====
-- The end of the stream, and an errno that an earlier call has left.
use batonlib.Base.{ℕ, zero, suc, ◌≡◌, refl, false, []}
use batonlib.Int.{pos}
use batonlib.Linux.{Linux}
use batonlib.SysCall.{out_of_fuel}
use batonlib.Connection.{connecting, Connection, after_read, serve}
use batonlib.Connection.Life.{Reads}

-- The client has closed its end, so every read returns 0, and errno is EAGAIN from an earlier call.
pub record Stale (l : Linux) (c : Connection l) : Type 1 where
  pub holds : l.World → Type 0
  pub runs : (w : l.World) → holds w → c.ended w ≡ false
  pub reads :
      (w : l.World)
      → holds w
      → (w1 : l.World) × Reads l c w (pos 0) [] w1 × (l.errno w1 ≡ pos 11) × holds w1

module _ (l : Linux) (c : Connection l) (s : Stale l c) where
  -- When the client has closed its end while errno is EAGAIN from an earlier call, and no one closes
  -- the connection, the loop does not end: it reads again and again.
  pub serve_stale : (fuel : ℕ) (w : l.World) → s.holds w → serve l c fuel connecting w ≡ out_of_fuel
  unfolding serve after_read
  serve_stale zero w h = refl
  serve_stale (suc fuel) w h =
      let (w1, reads, again, h1) = s.reads w h in
      rw (serve, s.runs w h, reads, after_read, again) (serve_stale fuel w1 h1)

-- ===== src/Connection/Timeouts.antt =====
-- The timeouts of a connection's socket.
use batonlib.Base.{◌≡◌, ap, ◌∙◌}
use batonlib.Int.{ℤ, quot-rem, IsInt, narrow, narrow_lem}
use batonlib.SysCall.{SocketInf, read_timeout}
use batonlib.Connection.{set_read_timeout}

-- The timeout that `co_read` takes from what set_read_timeout has stored is the one that was set, for
-- every int, negative ones included.
pub read_timeout-set_read_timeout :
    (ms : ℤ) (inf : SocketInf) → IsInt ms → read_timeout (set_read_timeout ms inf) ≡ ms
unfolding read_timeout set_read_timeout
read_timeout-set_read_timeout ms inf h = ap narrow (quot-rem ms) ∙ narrow_lem ms h

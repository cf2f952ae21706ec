-- ===== src/Connection/Tests.antt =====
-- A client that sends a byte some times, and then closes its end.
use batonlib.Base.{
  ℕ, zero, suc, ◌<◌, ◌≡◌, ◌≢◌, refl, sym, ap, ◌∙◌, false, none, some, List, [], ◌∷◌, arith,
}
use batonlib.Int.{ℤ, pos}
use batonlib.FdMap.{find}
use batonlib.Linux.{Linux}
use batonlib.SysCall.{
  SocketInf, Infs, Call, returned, crashed, out_of_fuel, new_socket_inf, socket_inf_of, co_read,
}
use batonlib.SysCall.Sockets.{IsKeyed, nil-IsKeyed, new_socket_inf-IsKeyed, find-new_socket_inf}
use batonlib.Connection.{connecting, Connection, received, again, after_read, serve, run}
use batonlib.Connection.Life.{Reads, Served, Ends, run_lem}
use batonlib.Connection.Stale.{Stale, serve_stale}

abbrev World : Type 0
World = ℕ × Infs

abbrev read_one : World → (ℤ × List ℕ) × World
read_one (zero, infs) = ((pos 0, []), (zero, infs))
read_one (suc n, infs) = ((pos 1, 65 ∷ []), (n, infs))

abbrev client : (errno : ℤ) → Linux
client errno = record {
  World = World;
  errno = λ w. errno;
  set_errno = λ e w. w;
  socket = λ domain type protocol w. (pos 7, w);
  accept = λ fd w. (pos 8, w);
  connect = λ fd w. (pos 0, w);
  get_so_error = λ fd w. ((pos 0, pos 0), w);
  fcntl_getfl = λ fd w. (pos 2, w);
  or_nonblock = λ flag. pos 2050;
  fcntl_setfl = λ fd flag w. w;
  close = λ fd w. (pos 0, w);
  read = λ fd n. read_one;
  recv = λ fd n flag. read_one;
  write = λ fd bs w. (pos 0, w);
  send = λ fd bs flag w. (pos 0, w);
  co_register = λ fd events timeout w. (pos 0, w);
}

abbrev conn : (errno : ℤ) → Connection (client errno)
conn errno = record {
  fd = pos 7;
  ended = λ w. false;
  infs = λ (n, infs). infs;
  set_infs = λ infs (n, _). (n, infs);
  connected_cb = λ st w. w;
  receive_cb = λ buf st w. w;
  disconnected_cb = λ st w. w;
}

abbrev opened : Infs
opened = new_socket_inf none (pos 7) []

opened-IsKeyed : IsKeyed opened
opened-IsKeyed = new_socket_inf-IsKeyed none (pos 7) [] nil-IsKeyed

abbrev seven : (inf : SocketInf) × (find (pos 7) opened ≡ some (some inf))
seven = find-new_socket_inf none (pos 7) []

default_read : (ℤ × List ℕ) × World
default_read = ((pos 0, []), (0, []))

outcome : Call ((ℤ × List ℕ) × World) → (ℤ × List ℕ) × World
unfolding default_read
outcome (returned r) = r
outcome crashed = default_read
outcome out_of_fuel = default_read

co_read-one :
    (errno : ℤ) (n : ℕ) (infs : Infs)
    → infs ≡ opened
    → co_read (client errno) (pos 7) 2048 infs (n, infs) ≡ returned (read_one (n, infs))
unfolding co_read socket_inf_of
co_read-one errno n infs h =
    let there : find (pos 7) infs ≡ some (some seven.0) = rw h seven.1 in
    rw (co_read, socket_inf_of, there) refl

module _ (n : ℕ) (infs : Infs) (h : infs ≡ opened) (len : ℤ) (buf : List ℕ) (w1 : World)
    (reads : Reads (client (pos 0)) (conn (pos 0)) (n, infs) len buf w1) where
  reads_one : read_one (n, infs) ≡ ((len, buf), w1)
  unfolding outcome
  reads_one = ap outcome (sym (co_read-one (pos 0) n infs h) ∙ reads)

receives :
    (n : ℕ) (infs : Infs) (h : infs ≡ opened) (len : ℤ) (buf : List ℕ) (w1 : World)
    → Reads (client (pos 0)) (conn (pos 0)) (n, infs) len buf w1
    → after_read len (pos 0) ≡ received
    → (w1.1 ≡ opened) × (w1.0 < n)
unfolding after_read
receives zero infs h len buf w1 reads e =
    let r = reads_one zero infs h len buf w1 reads in
    let e0 = rw (sym (ap (λ x. x.0.0) r)) at e in cc
receives (suc n) infs h len buf w1 reads e =
    let r = ap (λ x. x.1) (reads_one (suc n) infs h len buf w1 reads) in rw (sym r) (h, omega arith)

never_again :
    (n : ℕ) (infs : Infs) (h : infs ≡ opened) (len : ℤ) (buf : List ℕ) (w1 : World)
    → Reads (client (pos 0)) (conn (pos 0)) (n, infs) len buf w1
    → after_read len (pos 0) ≢ again
unfolding after_read
never_again zero infs h len buf w1 reads e =
    let r = reads_one zero infs h len buf w1 reads in
    let e0 = rw (sym (ap (λ x. x.0.0) r)) at e in cc
never_again (suc n) infs h len buf w1 reads e =
    let r = reads_one (suc n) infs h len buf w1 reads in
    let e0 = rw (sym (ap (λ x. x.0.0) r)) at e in cc

stays_open :
    (n : ℕ) (infs : Infs) (h : infs ≡ opened) (len : ℤ) (buf : List ℕ) (w1 : World)
    → Reads (client (pos 0)) (conn (pos 0)) (n, infs) len buf w1
    → w1.1 ≡ opened
stays_open zero infs h len buf w1 reads =
    rw (sym (ap (λ x. x.1) (reads_one zero infs h len buf w1 reads))) h
stays_open (suc n) infs h len buf w1 reads =
    rw (sym (ap (λ x. x.1) (reads_one (suc n) infs h len buf w1 reads))) h

abbrev conn_served : Served (client (pos 0)) (conn (pos 0))
conn_served = record {
  holds = λ w. w.1 ≡ opened;
  left = λ w. w.0;
  keyed = λ w h. rw h opened-IsKeyed;
  open_inf = λ w h. (seven.0, rw h seven.1);
  begins = λ w h. h;
  receives = λ w h goes. receives w.0 w.1 h;
  tries_again = λ w h goes len buf w1 reads e. absurd (never_again w.0 w.1 h len buf w1 reads e);
  stops = λ w h goes len buf w1 st reads e. stays_open w.0 w.1 h len buf w1 reads;
  ends = λ w st h. h;
  stored = λ infs w. refl;
}

run_lem_example :
    Ends (client (pos 0)) (conn (pos 0)) (run (client (pos 0)) (conn (pos 0)) 4 (3, opened))
run_lem_example =
    run_lem (client (pos 0)) (conn (pos 0)) conn_served 4 (3, opened) refl (omega arith)

abbrev gone_stale : Stale (client (pos 11)) (conn (pos 11))
gone_stale = record {
  holds = λ w. w ≡ (0, opened);
  runs = λ w h. refl;
  reads = λ w h. rw h ((0, opened), co_read-one (pos 11) 0 opened refl, refl, refl);
}

serve_stale_example : serve (client (pos 11)) (conn (pos 11)) 9 connecting (0, opened) ≡ out_of_fuel
serve_stale_example = serve_stale (client (pos 11)) (conn (pos 11)) gone_stale 9 (0, opened) refl

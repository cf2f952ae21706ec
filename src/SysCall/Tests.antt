-- ===== src/SysCall/Tests.antt =====
-- A kernel that takes two bytes at a time; descriptor 9 is never ready.
use batonlib.Base.{
  ℕ, suc, ◌<◌, ◌≤◌, ◌≡◌, refl, ap, false, none, some, List, [], ◌∷◌, ◌++◌, arith, length, take,
  if◌then◌else◌,
}
use batonlib.Int.{ℤ, pos, negsuc, ◌==ℤ◌}
use batonlib.FdMap.{find, find-insert_self}
use batonlib.Linux.{Linux, Taking}
use batonlib.SysCall.{
  to_write, write_timeout, progress, SocketInf, Infs, socket_inf_of, new_socket_inf, co_close,
  co_write,
}
use batonlib.SysCall.Sends.{Sends, co_write_lem}
use batonlib.SysCall.Complete.{SendsAll, co_write-SendsAll}
use batonlib.SysCall.Sockets.{nil-IsKeyed, closed, Op, opening, accepting, closing, find-co_close}

record Kernel : Type 0 where
  bytes : List ℕ
  error : ℤ

abbrev take_two : List ℕ → Kernel → ℤ × Kernel
take_two bs w = (pos (length (take 2 bs)), record w { bytes = w.bytes ++ take 2 bs })

abbrev sample : Linux
sample = record {
  World = Kernel;
  errno = λ w. w.error;
  set_errno = λ e w. record w { error = e };
  socket = λ domain type protocol w. (pos 7, w);
  accept = λ fd w. (pos 8, w);
  connect = λ fd w. (negsuc 0, record w { error = pos 115 });
  get_so_error = λ fd w. ((pos 0, pos 0), w);
  fcntl_getfl = λ fd w. (pos 2, w);
  or_nonblock = λ flag. pos 2050;
  fcntl_setfl = λ fd flag w. w;
  close = λ fd w. (pos 0, w);
  read = λ fd n w. ((pos 1, 65 ∷ []), w);
  recv = λ fd n flag w. ((pos 1, 65 ∷ []), w);
  write = λ fd. take_two;
  send = λ fd bs flag. take_two bs;
  co_register = λ fd events timeout w. (if fd ==ℤ pos 9 then pos 1 else pos 0, w);
}

abbrev idle : Kernel
idle = record { bytes = []; error = pos 0 }

two_le : (bs : List ℕ) → length (take 2 bs) ≤ length bs
two_le [] = omega arith
two_le (a ∷ []) = omega arith
two_le (a ∷ b ∷ bs) = omega arith

take_taken : (bs : List ℕ) → take 2 bs ≡ take (length (take 2 bs)) bs
take_taken [] = refl
take_taken (a ∷ []) = refl
take_taken (a ∷ b ∷ bs) = refl

abbrev number : ℤ → ℕ
number (pos n) = n
number (negsuc n) = 0

take_two-Taking :
    (wait : Kernel → ℤ × Kernel)
    → ((w : Kernel) → (wait w).1.bytes ≡ w.bytes)
    → Taking (λ w. w.bytes) take_two wait
take_two-Taking wait kept = record {
  bounded = λ bs w n e. rw (ap number e) at (two_le bs);
  taken = λ bs w n e. ap (λ xs. w.bytes ++ xs) (rw (ap number e) at (take_taken bs));
  failed = λ bs w n e. cc;
  waited = kept;
}

moves : (bs : List ℕ) → 0 < length bs → (n : ℕ) × (pos (length (take 2 bs)) ≡ pos (suc n))
moves [] h = absurd (omega arith)
moves (a ∷ []) h = (0, refl)
moves (a ∷ b ∷ bs) h = (1, refl)

abbrev opened : Infs
opened = new_socket_inf none (pos 7) []

abbrev seven : SocketInf
seven = record {
  domain = none;
  fd = pos 7;
  istimeout = false;
  read_sec = pos 30;
  read_usec = pos 0;
  write_sec = pos 30;
  write_usec = pos 0;
}

opened-seven : socket_inf_of (pos 7) opened ≡ some seven
unfolding socket_inf_of new_socket_inf
opened-seven =
    let e = find-insert_self (pos 7) (some seven) [] in rw (socket_inf_of, new_socket_inf, e) refl

co_write_lem_example :
    Sends
      (λ w. w.bytes)
      (sample.write (pos 7))
      (sample.co_register (pos 7) to_write (write_timeout seven))
      (λ r. (r ≡ (sample.write (pos 7) (1 ∷ 2 ∷ 3 ∷ []) idle).0) × (progress r ≡ none))
      (1 ∷ 2 ∷ 3 ∷ [])
      idle
      (co_write sample 4 (pos 7) (1 ∷ 2 ∷ 3 ∷ []) opened idle)
co_write_lem_example =
    co_write_lem sample (λ w. w.bytes) (pos 7) seven opened opened-seven (1 ∷ 2 ∷ 3 ∷ []) 4 idle
      (take_two-Taking _ (λ w. refl)) (omega arith)

co_write-SendsAll_example :
    SendsAll
      (λ w. w.bytes)
      (1 ∷ 2 ∷ 3 ∷ [])
      idle
      (co_write sample 4 (pos 7) (1 ∷ 2 ∷ 3 ∷ []) opened idle)
co_write-SendsAll_example =
    co_write-SendsAll sample (λ w. w.bytes) (pos 7) seven opened opened-seven (1 ∷ 2 ∷ 3 ∷ [])
      (omega arith) 4 (omega arith) idle (take_two-Taking _ (λ w. refl))
      (record { ready = λ w. refl; moves = λ bs w h. moves bs h })

abbrev nothing : Infs
nothing = []

find-co_close_example :
    find (pos 7) (co_close sample (pos 7) nothing idle).1 ≡ closed (find (pos 7) nothing)
find-co_close_example = find-co_close sample (pos 7) (pos 7) nothing idle nil-IsKeyed

abbrev some_calls : List (Op sample)
some_calls = opening (pos 2) (pos 1) (pos 0) ∷ accepting (pos 7) ∷ closing (pos 7) ∷ []

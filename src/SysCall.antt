-- ===== src/SysCall.antt =====
-- Batonlib/co_sys_call.cpp: the system calls as a coroutine makes them. `g_socket_inf` is the map
-- `infs`, where `none` is a NULL pointer. A buffer has fewer than 2 ^ 63 bytes.
pub mod Sends
pub mod Complete
pub mod Sockets
pub mod Connect
mod Tests
use batonlib.Base.{
  ℕ, zero, suc, ◌+◌, ◌*◌, Bool, true, false, not, ◌&&◌, Option, none, some, List, [], ◌==◌, ltb,
  if◌then◌else◌, length, drop,
}
use batonlib.Int.{ℤ, pos, negsuc, ◌==ℤ◌, ltbℤ, ◌+ℤ◌, scale, narrow, quot}
use batonlib.FdMap.{find, erase, insert}
use batonlib.Linux.{Linux}

-- `domain` is not set by the constructor.
pub record SocketInf : Type 0 where
  pub domain : Option ℤ
  pub fd : ℤ
  pub istimeout : Bool
  pub read_sec : ℤ
  pub read_usec : ℤ
  pub write_sec : ℤ
  pub write_usec : ℤ

abbrev pub Infs : Type 0
Infs = List (ℤ × Option SocketInf)

pub data Call (A : Type 0) : Type 0 where
  returned : A → Call A
  crashed : Call A
  out_of_fuel : Call A

abbrev pub time_out : ℤ
time_out = negsuc 10085

-- The bits of EPOLLIN, EPOLLOUT, EPOLLERR and EPOLLHUP.
abbrev pub to_read : ℕ
to_read = 25

abbrev pub to_write : ℕ
to_write = 28

abbrev pub to_connect : ℕ
to_connect = 5

-- The constructor, its entry in the map included, and the destructor.
pub new_socket_inf : Option ℤ → ℤ → Infs → Infs
new_socket_inf domain fd infs =
    insert fd
      (some (record {
        domain = domain;
        fd = fd;
        istimeout = false;
        read_sec = pos 30;
        read_usec = pos 0;
        write_sec = pos 30;
        write_usec = pos 0;
      }))
      infs

pub delete_socket_inf : SocketInf → Infs → Infs
delete_socket_inf inf infs = erase inf.fd infs

-- `g_socket_inf[fd]`, where it is not NULL.
unfoldable pub socket_inf_of : ℤ → Infs → Option SocketInf
socket_inf_of fd infs = elim (find fd infs) [ none ↦ none | some inf ↦ inf ]

unfoldable pub read_timeout : SocketInf → ℤ
read_timeout inf = narrow (scale inf.read_sec 1000 +ℤ quot inf.read_usec 1000)

pub write_timeout : SocketInf → ℤ
write_timeout inf = narrow (scale inf.write_sec 1000 +ℤ quot inf.write_usec 1000)

-- The number of bytes, where it is positive.
abbrev pub progress : ℤ → Option ℕ
progress (pos (suc n)) = some (suc n)
progress (pos zero) = none
progress (negsuc n) = none

-- A call returned something that is not 0.
abbrev pub is_true : ℤ → Bool
is_true r = not (r ==ℤ pos 0)

module _ (l : Linux) where
  open l use {
    World, errno, set_errno, fcntl_getfl, or_nonblock, fcntl_setfl, get_so_error, co_register,
  }

  abbrev set_nonblock : ℤ → World → World
  set_nonblock fd w = let (flag, w1) = fcntl_getfl fd w in fcntl_setfl fd (or_nonblock flag) w1

  pub co_socket : (domain type protocol : ℤ) → Infs → World → ℤ × Infs × World
  co_socket domain type protocol infs w =
      let (fd, w1) = l.socket domain type protocol w in
      if ltbℤ fd (pos 0)
      then (fd, infs, w1)
      else (fd, new_socket_inf (some domain) fd infs, set_nonblock fd w1)

  -- What `co_register` returns is not looked at.
  pub co_accept : ℤ → Infs → World → ℤ × Infs × World
  co_accept fd infs w =
      let (regret, w1) = co_register fd to_read (negsuc 0) w in
      let (client_fd, w2) = l.accept fd w1 in
      (client_fd, new_socket_inf none client_fd infs, set_nonblock client_fd w2)

  -- `for(int i = 0; i < 3; i++)`, with the number of turns that are left, and `timeout`.
  pub connect_waits : ℕ → ℤ → Bool → World → Bool × World
  connect_waits zero fd timeout w = (timeout, w)
  connect_waits (suc turns) fd timeout w =
      let (regret, w1) = co_register fd to_connect (pos 25000) w in
      let rest = connect_waits turns fd true w1 in if is_true regret then rest else (false, w1)

  pub connect_result : ℤ → World → ℤ × World
  connect_result fd w =
      let ((ret, error), w1) = get_so_error fd w in
      if ltbℤ ret (pos 0)
      then (negsuc 0, w1)
      else if is_true error
      then (negsuc 0, set_errno error w1)
      else (pos 0, w1)

  -- The arguments `in_progress` and `timed_out` are EINPROGRESS and ETIMEDOUT.
  pub co_connect : (in_progress timed_out : ℤ) → ℤ → World → ℤ × World
  unfolding connect_waits connect_result
  co_connect in_progress timed_out fd w =
      let (ret, w1) = l.connect fd w in
      if ltbℤ ret (pos 0) && (errno w1 ==ℤ in_progress)
      then (let (timeout, w2) = connect_waits 3 fd false w1 in
          if timeout then (time_out, set_errno timed_out w2) else connect_result fd w2)
      else (ret, w1)

  -- An entry that is missing is made by `g_socket_inf[fd]`, with a NULL pointer.
  pub co_close : ℤ → Infs → World → ℤ × Infs × World
  co_close fd infs w =
      let (ret, w1) = l.close fd w in
      (
        ret,
        elim (find fd infs) [
          | none ↦ insert fd none infs
          | some none ↦ infs
          | some (some inf) ↦ delete_socket_inf inf infs
        ],
        w1,
      )

  -- What is returned, and the bytes that are stored.
  unfoldable pub co_read : ℤ → ℕ → Infs → World → Call ((ℤ × List ℕ) × World)
  co_read fd nbyte infs w = elim (socket_inf_of fd infs) [
    | none ↦ crashed
    | some inf ↦
        let (regret, w1) = co_register fd to_read (read_timeout inf) w in
        if is_true regret then returned ((time_out, []), w1) else returned (l.read fd nbyte w1)
  ]

  pub co_recv : ℤ → ℕ → ℤ → Infs → World → Call ((ℤ × List ℕ) × World)
  co_recv fd nbyte flag infs w = elim (socket_inf_of fd infs) [
    | none ↦ crashed
    | some inf ↦
        let (regret, w1) = co_register fd to_read (read_timeout inf) w in
        if is_true regret then returned ((time_out, []), w1) else returned (l.recv fd nbyte flag w1)
  ]

  -- The loop of `co_write` and `co_send`, with what the last call returned, and what follows it.
  pub write_rest :
      ℕ
      → (write : List ℕ → World → ℤ × World) (wait : World → ℤ × World) → List ℕ
      → ℕ
      → ℤ
      → World
      → Call (ℤ × World)
  write_rest zero write wait buf write_size write_ret w = out_of_fuel
  write_rest (suc fuel) write wait buf write_size write_ret w =
      if ltb write_size (length buf)
      then (let (regret, w1) = wait w in
          let (ret, w2) = write (drop write_size buf) w1 in
          if is_true regret then returned (time_out, w1) else elim (progress ret) [
            | some n ↦ write_rest fuel write wait buf (write_size + n) ret w2
            | none ↦ returned (if write_size == 0 then ret else pos write_size, w2)
          ])
      else returned (
        elim (progress write_ret) [
          | some _ ↦ pos write_size
          | none ↦ if write_size == 0 then write_ret else pos write_size
        ],
        w,
      )

  pub co_write : ℕ → ℤ → List ℕ → Infs → World → Call (ℤ × World)
  unfolding write_rest
  co_write fuel fd buf infs w = elim (socket_inf_of fd infs) [
    | none ↦ crashed
    | some inf ↦
        let (ret, w1) = l.write fd buf w in
        elim (progress ret) [
          | none ↦ returned (ret, w1)
          | some n ↦
              write_rest fuel (l.write fd) (co_register fd to_write (write_timeout inf)) buf n ret
                w1
        ]
  ]

  -- Other than `co_write` it waits after a call that fails.
  pub co_send : ℕ → ℤ → List ℕ → ℤ → Infs → World → Call (ℤ × World)
  unfolding write_rest
  co_send fuel fd buf flag infs w = elim (socket_inf_of fd infs) [
    | none ↦ crashed
    | some inf ↦
        let (ret, w1) = l.send fd buf flag w in
        let wait = co_register fd to_write (write_timeout inf) in
        elim ret [
          | pos n ↦
              if n == 0
              then returned (pos 0, w1)
              else write_rest fuel (λ bs. l.send fd bs flag) wait buf n (pos n) w1
          | negsuc n ↦ write_rest fuel (λ bs. l.send fd bs flag) wait buf 0 (negsuc n) w1
        ]
  ]

-- ===== src/Linux.antt =====
-- What the wrapped system calls do, as a parameter: each takes the state of the world and returns
-- what the call returns and the world behind it. The addresses of sockets are left out, since the
-- code only passes them on.
use batonlib.Base.{ℕ, ◌≤◌, ◌≡◌, List, ◌++◌, length, take}
use batonlib.Int.{ℤ, pos, negsuc}

pub record Linux : Type 1 where
  pub World : Type 0
  pub errno : World → ℤ
  pub set_errno : ℤ → World → World
  pub socket : (domain type protocol : ℤ) → World → ℤ × World
  pub accept : ℤ → World → ℤ × World
  pub connect : ℤ → World → ℤ × World
  -- What `getsockopt` returns, and the value of SO_ERROR.
  pub get_so_error : ℤ → World → (ℤ × ℤ) × World
  pub fcntl_getfl : ℤ → World → ℤ × World
  pub or_nonblock : ℤ → ℤ
  pub fcntl_setfl : ℤ → ℤ → World → World
  pub close : ℤ → World → ℤ × World
  -- What they return, and the bytes that are stored.
  pub read : ℤ → ℕ → World → (ℤ × List ℕ) × World
  pub recv : ℤ → ℕ → ℤ → World → (ℤ × List ℕ) × World
  pub write : ℤ → List ℕ → World → ℤ × World
  pub send : ℤ → List ℕ → ℤ → World → ℤ × World
  -- `co_register(fd, events, timeout)` as its caller sees it: it returns when the coroutine is
  -- resumed, and till then the others do what they like.
  pub co_register : ℤ → ℕ → ℤ → World → ℤ × World

-- A way to write, by the bytes that the kernel has taken from this caller: a call that returns n has
-- taken the first n bytes of what it was given, one that fails has taken nothing, and nothing is
-- taken while the caller waits.
pub record Taking {World : Type 0} (sent : World → List ℕ) (write : List ℕ → World → ℤ × World)
    (wait : World → ℤ × World) : Type 0 where
  pub bounded : (bs : List ℕ) (w : World) (n : ℕ) → (write bs w).0 ≡ pos n → n ≤ length bs
  pub taken :
      (bs : List ℕ) (w : World) (n : ℕ)
      → (write bs w).0 ≡ pos n
      → sent (write bs w).1 ≡ sent w ++ take n bs
  pub failed :
      (bs : List ℕ) (w : World) (n : ℕ) → (write bs w).0 ≡ negsuc n → sent (write bs w).1 ≡ sent w
  pub waited : (w : World) → sent (wait w).1 ≡ sent w

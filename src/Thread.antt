-- ===== src/Thread.antt =====
-- Batonlib/base/Thread.cpp: the start of a thread, which waits on a latch until the new thread knows
-- its own number, and its join. `none` is an assertion that fails. What the thread runs, its name and its
-- handle are left out.
pub mod Steps
pub mod Sound
pub mod Calls
pub mod Kept
pub mod Started
mod Tests
use batonlib.Base.{Bool, true, false, not, ◌&&◌, Option, none, some, if◌then◌else◌}
use batonlib.Int.{ℤ, pos, ltbℤ}
use batonlib.CountDownLatch
use batonlib.CountDownLatch.{CountDownLatch, new_latch, countdown}

pub record Thread : Type 0 where
  pub latch : CountDownLatch
  pub start : Bool
  pub join : Bool
  pub tid : ℤ

pub new_thread : Thread
new_thread = record { latch = new_latch (pos 1); start = false; join = false; tid = pos 0 }

-- `start` up to its wait, with whether it comes to it. `pthread_create` says `created`.
pub start : (created : Bool) → Thread → Option (Bool × Thread)
start created t =
    if t.start
    then none
    else if created
    then some (true, record t { start = true })
    else some (false, record t { start = false })

-- The wait of `start`, from its beginning or from a wake-up: whether it returns.
pub await_tid : Thread → Bool × Thread
await_tid t = let (done, l) = CountDownLatch.wait t.latch in (done, record t { latch = l })

-- The assertion behind it.
pub has_tid : Thread → Bool
has_tid t = ltbℤ (pos 0) t.tid

-- What the new thread does before its function: `cache` gives its number.
pub set_tid : ℤ → Thread → Thread
set_tid tid t = record t { tid = tid }

pub tell : Thread → Thread
tell t = record t { latch = countdown t.latch }

-- `join` up to `pthread_join`.
pub join : Thread → Option Thread
join t = if t.start then if t.join then none else some (record t { join = true }) else none

-- Whether the destructor detaches the thread.
pub is_detached : Thread → Bool
is_detached t = t.start && not t.join

-- ===== src/Scheduler/Register.antt =====
-- `scheduler::register_event` of Batonlib/scheduler.cpp, up to its `yield` and from there on. The
-- clock and the addresses of the new objects are arguments.
pub mod Prepared
pub mod Timer
pub mod Watch
pub mod Waits
mod Tests
use batonlib.Base.{ℕ, zero, suc, ◌+◌, ◌%◌, Bool, true, false, if◌then◌else◌}
use batonlib.Int.{ℤ, pos, negsuc, ltbℤ}
use batonlib.Memory.{
  Ptr, null, Cmd, pure, ◌>>=◌, ◌>>◌, new_raw_event, new_time_item, set_co, set_fd, set_is_timeout,
  set_t_item, set_item, get_is_timeout, delete_event, delete_item,
}
use batonlib.TimeWheel.{TimeWheel, u64_mod, add_timeout}
use batonlib.Epoll
use batonlib.Epoll.{CoEpoll}

-- The timer of the event `item`; `false` for a timeout that is neither positive nor -1.
start_timer : TimeWheel → ℕ → (item t_item : Ptr) → ℤ → Cmd Bool
start_timer tw now item t_item (pos (suc n)) = do
  new_time_item t_item ((now + suc n) % u64_mod) null null
  set_item t_item item
  add_timeout tw t_item
  set_t_item item t_item
  pure true
start_timer tw now item t_item (negsuc zero) = do
  new_time_item t_item 0 null null
  set_item t_item item
  set_t_item item t_item
  pure true
start_timer tw now item t_item (pos zero) = pure false
start_timer tw now item t_item (negsuc (suc n)) = pure false

pub watch : ℤ → ℕ → Ptr → CoEpoll → CoEpoll
watch fd events item ep = if ltbℤ (negsuc 0) fd then (Epoll.add fd events item ep).1 else ep

-- The first half for the coroutine `co`: `true` where it comes to the `yield`, and `false` where it
-- returns -1.
pub register_event :
    TimeWheel
    → CoEpoll
    → (co : Ptr) → (fd : ℤ) → ℕ
    → ℤ
    → ℕ
    → (item t_item : Ptr) → Cmd (Bool × CoEpoll)
unfolding start_timer watch
register_event tw ep co fd events timeout now item t_item =
    if ltbℤ (pos tw.w_size) timeout then pure (false, ep) else (do
      new_raw_event item
      set_co item co
      set_fd item fd
      set_is_timeout item false
      let ep' = watch fd events item ep
      waits ← start_timer tw now item t_item timeout
      pure (waits, ep'))

-- The second half: what it returns says whether the time has run out.
unfoldable pub register_resumed : CoEpoll → (fd : ℤ) → (item t_item : Ptr) → Cmd (Bool × CoEpoll)
register_resumed ep fd item t_item = do
  let ep' = if ltbℤ (negsuc 0) fd then (Epoll.del fd ep).1 else ep
  istimeout ← get_is_timeout item
  delete_event item
  delete_item t_item
  pure (istimeout, ep')

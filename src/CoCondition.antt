-- ===== src/CoCondition.antt =====
-- Batonlib/co_condition.cpp: coroutines that wait for a condition. The deque holds the events of
-- the waiting coroutines; a signal moves the first one's item to the active link of the scheduler.
pub mod Waiting
pub mod Wait
mod Tests
use batonlib.Base.{List, [], ◌∷◌, ◌++◌, false}
use batonlib.Int.{ℤ, pos, negsuc}
use batonlib.Memory.{
  Ptr, null, Cmd, pure, ◌>>=◌, ◌>>◌, get_t_item, set_fd, set_co, set_t_item, set_is_timeout,
  set_item, new_event, new_time_item, delete_event, delete_item,
}
use batonlib.Link.{append}

-- The deque and the active link of the condition's scheduler.
pub record CoCondition : Type 0 where
  pub co_deque : List Ptr
  pub active_link : Ptr

-- `co_cond_wait` of the coroutine `co` up to its `yield`, with the addresses of the two new
-- objects.
pub co_cond_wait : CoCondition → (item t_item co : Ptr) → Cmd CoCondition
co_cond_wait cond item t_item co = do
  new_event item
  set_fd item (negsuc 0)
  set_co item co
  set_t_item item null
  set_is_timeout item false
  new_time_item t_item 0 null null
  set_t_item item t_item
  set_item t_item item
  pure (record cond { co_deque = cond.co_deque ++ item ∷ [] })

-- What `co_cond_wait` does once it is resumed.
pub co_cond_resumed : (item t_item : Ptr) → Cmd ℤ
co_cond_resumed item t_item = do delete_event item; delete_item t_item; pure (pos 1)

pub co_cond_signal : CoCondition → Cmd (ℤ × CoCondition)
co_cond_signal cond = elim cond.co_deque [
  | [] ↦ pure (negsuc 0, cond)
  | event ∷ events ↦ do
    item ← get_t_item event
    append cond.active_link item
    pure (pos 1, record cond { co_deque = events })
]

broadcast_all : Ptr → List Ptr → Cmd (Unit {0})
broadcast_all active [] = pure tt
broadcast_all active (event ∷ events) = do
  item ← get_t_item event
  append active item
  broadcast_all active events

pub co_cond_broadcast : CoCondition → Cmd (ℤ × CoCondition)
co_cond_broadcast cond = do
  broadcast_all cond.active_link cond.co_deque
  pure (pos 1, record cond { co_deque = [] })

-- ===== src/Epoll.antt =====
-- Batonlib/co_epoll.cpp: the descriptors under watch. The calls of `epoll_ctl` are listed in the
-- order in which they are made; their results are not looked at.
pub mod Watched
mod Tests
use batonlib.Base.{ℕ, Bool, true, false, Option, none, some, List, [], ◌∷◌, ◌++◌, if◌then◌else◌}
use batonlib.Int.{ℤ, pos, negsuc, ◌==ℤ◌}
use batonlib.FdMap.{find, erase}
use batonlib.Memory.{Ptr}

pub data Ctl : Type 0 where
  ctl_add : (fd : ℤ) (event : ℕ) (item : Ptr) → Ctl
  ctl_del : (fd : ℤ) (item : Ptr) → Ctl
  ctl_mod : (fd : ℤ) (event : ℕ) (item : Ptr) → Ctl

pub record CoEpoll : Type 0 where
  pub item_map : List (ℤ × Ptr)
  pub ctls : List Ctl

pub add : ℤ → ℕ → Ptr → CoEpoll → ℤ × CoEpoll
add fd event item e = elim (find fd e.item_map) [
  | some _ ↦ (negsuc 0, e)
  | none ↦ (
    pos 0,
    record { item_map = (fd, item) ∷ e.item_map; ctls = e.ctls ++ ctl_add fd event item ∷ [] },
  )
]

pub del : ℤ → CoEpoll → ℤ × CoEpoll
del fd e = elim (find fd e.item_map) [
  | none ↦ (negsuc 0, e)
  | some item ↦
      (pos 0, record { item_map = erase fd e.item_map; ctls = e.ctls ++ ctl_del fd item ∷ [] })
]

-- `mod` is a keyword of this language.
pub modify : ℤ → ℕ → CoEpoll → ℤ × CoEpoll
modify fd event e = elim (find fd e.item_map) [
  | none ↦ (negsuc 0, e)
  | some item ↦ (pos 0, record e { ctls = e.ctls ++ ctl_mod fd event item ∷ [] })
]

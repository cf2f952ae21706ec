-- ===== src/Epoll/Tests.antt =====
-- A descriptor is added twice, modified and deleted.
use batonlib.Base.{◌≡◌, none, List, [], ◌∷◌}
use batonlib.Int.{pos}
use batonlib.Epoll.Watched.{
  Op, adding, deleting, modifying, applies, new_co_epoll, table_applies, Refines, applies-Refines,
}

abbrev some_ops : List Op
some_ops =
    adding (pos 5) 1 20
    ∷ adding (pos 5) 1 21
    ∷ modifying (pos 5) 4
    ∷ deleting (pos 5)
    ∷ deleting (pos 5)
    ∷ []

applies-Refines_example :
    ((applies some_ops new_co_epoll).0 ≡ (table_applies some_ops (λ fd. none)).0)
    × Refines (applies some_ops new_co_epoll).1 (table_applies some_ops (λ fd. none)).1
applies-Refines_example = applies-Refines some_ops

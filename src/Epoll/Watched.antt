-- ===== src/Epoll/Watched.antt =====
-- The map of the items is what the calls of `epoll_ctl` ask the kernel to watch.
use batonlib.Base.{
  Option-cases, ℕ, ◌≡◌, refl, sym, ap, ◌∙◌, Bool, true, false, Option, none, some, List, [], ◌∷◌,
  ◌++◌, if◌then◌else◌, Bool-cases, inl, inr,
}
use batonlib.Int.{ℤ, pos, negsuc, ◌==ℤ◌, ==ℤ_iff}
use batonlib.FdMap.{find, find-nil, find-cons, find-erase}
use batonlib.Memory.{Ptr}
use batonlib.Epoll.{Ctl, ctl_add, ctl_del, ctl_mod, CoEpoll, add, del, modify}

-- What one call asks for a descriptor: the events and the item, where it is watched.
abbrev pub asks : Ctl → ℤ → Option (ℕ × Ptr) → Option (ℕ × Ptr)
asks (ctl_add k event item) fd before = if k ==ℤ fd then some (event, item) else before
asks (ctl_del k item) fd before = if k ==ℤ fd then none else before
asks (ctl_mod k event item) fd before = if k ==ℤ fd then some (event, item) else before

-- What a list of calls leaves, the first call first.
abbrev pub watched : ℤ → List Ctl → Option (ℕ × Ptr) → Option (ℕ × Ptr)
watched fd [] before = before
watched fd (c ∷ cs) before = watched fd cs (asks c fd before)

watched-append :
    (fd : ℤ) (cs : List Ctl) (c : Ctl) (before : Option (ℕ × Ptr))
    → watched fd (cs ++ c ∷ []) before ≡ asks c fd (watched fd cs before)
watched-append fd [] c before = refl
watched-append fd (d ∷ cs) c before = watched-append fd cs c (asks d fd before)

abbrev pub item_of : Option (ℕ × Ptr) → Option Ptr
item_of none = none
item_of (some (event, item)) = some item

-- An added descriptor has its item.
pub find-add :
    (fd : ℤ) (event : ℕ) (item : Ptr) (e : CoEpoll)
    → find fd e.item_map ≡ none
    → find fd (add fd event item e).1.item_map ≡ some item
unfolding add
find-add fd event item e free =
    rw (free, add, find-cons fd fd item e.item_map, (==ℤ_iff fd fd).1 refl) refl

pub add_free :
    (fd : ℤ) (event : ℕ) (item : Ptr) (e : CoEpoll)
    → find fd e.item_map ≡ none
    → (add fd event item e).1
      ≡ record { item_map = (fd, item) ∷ e.item_map; ctls = e.ctls ++ ctl_add fd event item ∷ [] }
unfolding add
add_free fd event item e free = rw (add, free) refl

pub add_taken :
    (fd : ℤ) (event : ℕ) (item old : Ptr) (e : CoEpoll)
    → find fd e.item_map ≡ some old
    → (add fd event item e).1 ≡ e
unfolding add
add_taken fd event item old e taken = rw (add, taken) refl

pub find-added :
    (fd k : ℤ) (event : ℕ) (item : Ptr) (e : CoEpoll)
    → find fd e.item_map ≡ none
    → find k (add fd event item e).1.item_map ≡ (if fd ==ℤ k then some item else find k e.item_map)
find-added fd k event item e free =
    ap (λ e'. find k e'.item_map) (add_free fd event item e free) ∙ find-cons k fd item e.item_map

-- The operations of the class.
pub data Op : Type 0 where
  adding : ℤ → ℕ → Ptr → Op
  deleting : ℤ → Op
  modifying : ℤ → ℕ → Op

apply : Op → CoEpoll → ℤ × CoEpoll
apply (adding fd event item) e = add fd event item e
apply (deleting fd) e = del fd e
apply (modifying fd event) e = modify fd event e

-- What each returns, and what the last one leaves.
pub applies : List Op → CoEpoll → List ℤ × CoEpoll
applies [] e = ([], e)
applies (o ∷ os) e = let (r, e') = apply o e in let (rs, e'') = applies os e' in (r ∷ rs, e'')

-- The specification: a table with at most one row for each descriptor, of the events that are watched
-- for and the item.
abbrev pub Row : Type 0
Row = Option (ℕ × Ptr)

abbrev pub Table : Type 0
Table = ℤ → Row

abbrev pub put_row : ℤ → Row → Table → Table
put_row fd row t k = if fd ==ℤ k then row else t k

abbrev pub table_apply : Op → Table → ℤ × Table
table_apply (adding fd event item) t = elim (t fd) [
  | some _ ↦ (negsuc 0, t)
  | none ↦ (pos 0, put_row fd (some (event, item)) t)
]
table_apply (deleting fd) t = elim (t fd) [
  | some _ ↦ (pos 0, put_row fd none t)
  | none ↦ (negsuc 0, t)
]
table_apply (modifying fd event) t = elim (t fd) [
  | some (_, item) ↦ (pos 0, put_row fd (some (event, item)) t)
  | none ↦ (negsuc 0, t)
]

abbrev pub table_applies : List Op → Table → List ℤ × Table
table_applies [] t = ([], t)
table_applies (o ∷ os) t =
    let (r, t') = table_apply o t in let (rs, t'') = table_applies os t' in (r ∷ rs, t'')

-- The map has the items of the table, and what the calls leave watched are its rows.
pub record Refines (e : CoEpoll) (t : Table) : Type 0 where
  pub mapped : (fd : ℤ) → find fd e.item_map ≡ item_of (t fd)
  pub asked : (fd : ℤ) → watched fd e.ctls none ≡ t fd

item_of-if :
    (b : Bool) (x y : Row) → item_of (if b then x else y) ≡ (if b then item_of x else item_of y)
item_of-if true x y = refl
item_of-if false x y = refl

-- One more call, in the table's terms.
asked-append :
    (e : CoEpoll) (t : Table) (k : ℤ) (c : Ctl)
    → Refines e t
    → watched k (e.ctls ++ c ∷ []) none ≡ asks c k (t k)
asked-append e t k c r = watched-append k e.ctls c none ∙ ap (asks c k) (r.asked k)

mapped_row :
    (e : CoEpoll) (t : Table) (fd : ℤ) (row : ℕ × Ptr)
    → Refines e t
    → t fd ≡ some row
    → find fd e.item_map ≡ some row.1
mapped_row e t fd row r there = r.mapped fd ∙ ap item_of there

-- An item that is there already stays when its events change.
same_item :
    (fd k : ℤ) (t : Table) (event old : ℕ) (item : Ptr)
    → t fd ≡ some (old, item)
    → item_of (t k) ≡ item_of (put_row fd (some (event, item)) t k)
same_item fd k t event old item there = elim (Bool-cases (fd ==ℤ k)) [
  | inl e ↦ rw e (ap (λ j. item_of (t j)) (sym ((==ℤ_iff fd k).0 e)) ∙ ap item_of there)
  | inr e ↦ rw e refl
]

apply_lem :
    (o : Op) (e : CoEpoll) (t : Table)
    → Refines e t
    → ((apply o e).0 ≡ (table_apply o t).0) × Refines (apply o e).1 (table_apply o t).1
unfolding apply add del modify
apply_lem (adding fd event item) e t r = elim (Option-cases (t fd)) [
  | inl free ↦
      rw (r.mapped fd ∙ ap item_of free, free, apply, add, table_apply)
        (
          refl,
          record {
            mapped = λ k.
                find-cons k fd item e.item_map
                ∙ ap (λ x. if fd ==ℤ k then some item else x) (r.mapped k)
                ∙ sym (item_of-if (fd ==ℤ k) (some (event, item)) (t k));
            asked = λ k. asked-append e t k (ctl_add fd event item) r;
          },
        )
  | inr (row, taken) ↦ rw (mapped_row e t fd row r taken, taken, apply, add, table_apply) (refl, r)
]
apply_lem (deleting fd) e t r = elim (Option-cases (t fd)) [
  | inl free ↦ rw (r.mapped fd ∙ ap item_of free, free, apply, del, table_apply) (refl, r)
  | inr (row, taken) ↦
      rw (mapped_row e t fd row r taken, taken, apply, del, table_apply)
        (
          refl,
          record {
            mapped = λ k.
                find-erase k fd e.item_map
                ∙ ap (λ x. if fd ==ℤ k then none else x) (r.mapped k)
                ∙ sym (item_of-if (fd ==ℤ k) none (t k));
            asked = λ k. asked-append e t k (ctl_del fd row.1) r;
          },
        )
]
apply_lem (modifying fd event) e t r = elim (Option-cases (t fd)) [
  | inl free ↦ rw (r.mapped fd ∙ ap item_of free, free, apply, modify, table_apply) (refl, r)
  | inr ((old, item), taken) ↦
      rw (mapped_row e t fd (old, item) r taken, taken, apply, modify, table_apply)
        (
          refl,
          record {
            mapped = λ k. r.mapped k ∙ same_item fd k t event old item taken;
            asked = λ k. asked-append e t k (ctl_mod fd event item) r;
          },
        )
]

-- A new `co_epoll` watches nothing.
pub new_co_epoll : CoEpoll
new_co_epoll = record { item_map = []; ctls = [] }

applies_from :
    (os : List Op) (e : CoEpoll) (t : Table)
    → Refines e t
    → ((applies os e).0 ≡ (table_applies os t).0) × Refines (applies os e).1 (table_applies os t).1
unfolding applies
applies_from [] e t r = (refl, r)
applies_from (o ∷ os) e t r =
    let (same, r') = apply_lem o e t r in
    let (sames, r'') = applies_from os (apply o e).1 (table_apply o t).1 r' in
    (rw (same, sames), r'')

-- Whatever `add`, `del` and `mod` are called, in whatever order, each returns what a table with at
-- most one row for each descriptor gives: -1, with nothing changed, where a descriptor to add has
-- an item or one to delete or modify has none, and else 0. In the end the map has the items of that
-- table, and what the calls of `epoll_ctl` leave watched are its rows, with the item and the events
-- that were last asked for.
pub applies-Refines :
    (os : List Op)
    → ((applies os new_co_epoll).0 ≡ (table_applies os (λ fd. none)).0)
      × Refines (applies os new_co_epoll).1 (table_applies os (λ fd. none)).1
unfolding new_co_epoll
applies-Refines os =
    applies_from os new_co_epoll (λ fd. none) (record { mapped = find-nil; asked = λ fd. refl })

pub find-new_co_epoll : (fd : ℤ) → find fd new_co_epoll.item_map ≡ none
unfolding new_co_epoll
find-new_co_epoll fd = find-nil fd

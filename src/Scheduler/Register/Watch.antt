-- ===== src/Scheduler/Register/Watch.antt =====
-- What `register_event` puts under watch.
use batonlib.Base.{
  Option-cases, ℕ, ◌≡◌, refl, ap, ◌⊎◌, inl, inr, true, false, Bool-cases, none, some, [], ◌∷◌, ◌++◌,
  if◌then◌else◌,
}
use batonlib.Int.{ℤ, negsuc, ltbℤ, ◌==ℤ◌}
use batonlib.Memory.{Ptr}
use batonlib.FdMap.{find}
use batonlib.Epoll.{CoEpoll, ctl_add}
use batonlib.Epoll.Watched.{add_free, add_taken, find-added}
use batonlib.Scheduler.Register.{watch}

-- The item of a descriptor without one: it is in the map now, next to the others, and the kernel has
-- been asked to watch the descriptor for `events`.
pub record Added (fd : ℤ) (events : ℕ) (item : Ptr) (ep ep' : CoEpoll) : Type 0 where
  pub free : find fd ep.item_map ≡ none
  pub mapped : (k : ℤ) → find k ep'.item_map ≡ (if fd ==ℤ k then some item else find k ep.item_map)
  pub asked : ep'.ctls ≡ ep.ctls ++ ctl_add fd events item ∷ []

-- A negative descriptor, and one that has an item, change nothing: then nobody watches for this event.
abbrev pub Watches : (fd : ℤ) → ℕ → Ptr → CoEpoll → CoEpoll → Type 0
Watches fd events item ep ep' =
    ((ltbℤ (negsuc 0) fd ≡ false) × (ep' ≡ ep))
    ⊎ ((ltbℤ (negsuc 0) fd ≡ true)
        × (((old : Ptr) × (find fd ep.item_map ≡ some old) × (ep' ≡ ep))
            ⊎ Added fd events item ep ep'))

pub watch-Watches :
    (fd : ℤ) (events : ℕ) (item : Ptr) (ep : CoEpoll)
    → Watches fd events item ep (watch fd events item ep)
unfolding watch
watch-Watches fd events item ep = elim (Bool-cases (ltbℤ (negsuc 0) fd)) [
  | inr no_fd ↦ rw (watch, no_fd) (inl (refl, refl))
  | inl real ↦
      rw (watch, real)
        (elim (Option-cases (find fd ep.item_map)) [
          | inr (old, taken) ↦ inr (refl, inl (old, taken, add_taken fd events item old ep taken))
          | inl free ↦ inr (
            refl,
            inr (record {
              free = free;
              mapped = λ k. find-added fd k events item ep free;
              asked = ap (λ e. e.ctls) (add_free fd events item ep free);
            }),
          )
        ])
]

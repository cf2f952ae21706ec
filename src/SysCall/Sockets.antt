-- ===== src/SysCall/Sockets.antt =====
-- The table of the sockets under `co_socket`, `co_accept` and `co_close`.
use batonlib.Base.{
  ◌≡◌, ◌≢◌, refl, sym, ap, ◌∙◌, ◌⊎◌, inl, inr, false, Option, none, some, List, [], ◌∷◌, Bool-cases,
  if◌then◌else◌,
}
use batonlib.Int.{ℤ, pos, ltbℤ, ◌==ℤ◌, ==ℤ_iff}
use batonlib.FdMap.{find, find-nil, find-erase, find-insert, find-insert_self}
use batonlib.Linux.{Linux}
use batonlib.SysCall.{
  SocketInf, Infs, new_socket_inf, delete_socket_inf, co_socket, co_accept, co_close,
}

-- What `g_socket_inf` has for a descriptor: no entry, a NULL pointer, or an object.
abbrev pub Entry : Type 0
Entry = Option (Option SocketInf)

-- Every object stands at its own descriptor.
abbrev pub IsKeyed : Infs → Type 0
IsKeyed infs = (fd : ℤ) (inf : SocketInf) → find fd infs ≡ some (some inf) → inf.fd ≡ fd

pub nil-IsKeyed : IsKeyed []
nil-IsKeyed fd inf h = let e = rw (find-nil fd) at h in cc

entry_cases : (o : Entry) → (o ≡ none) ⊎ (o ≡ some none) ⊎ ((i : SocketInf) × (o ≡ some (some i)))
entry_cases none = inl refl
entry_cases (some none) = inr (inl refl)
entry_cases (some (some i)) = inr (inr (i, refl))

-- The entry of a descriptor that has been closed.
abbrev pub closed : Entry → Entry
closed none = some none
closed (some none) = some none
closed (some (some inf)) = none

closed_empty : (o : Entry) (inf : SocketInf) → closed o ≢ some (some inf)
closed_empty none inf h = cc
closed_empty (some none) inf h = cc
closed_empty (some (some i)) inf h = cc

inf_of : SocketInf → Entry → SocketInf
inf_of d (some (some i)) = i
inf_of d (some none) = d
inf_of d none = d

pub find-new_socket_inf :
    (domain : Option ℤ) (fd : ℤ) (infs : Infs)
    → (inf : SocketInf) × (find fd (new_socket_inf domain fd infs) ≡ some (some inf))
unfolding new_socket_inf
find-new_socket_inf domain fd infs = (_, find-insert_self fd _ infs)

pub new_socket_inf-IsKeyed :
    (domain : Option ℤ) (fd : ℤ) (infs : Infs)
    → IsKeyed infs
    → IsKeyed (new_socket_inf domain fd infs)
unfolding new_socket_inf inf_of
new_socket_inf-IsKeyed domain fd infs keyed k inf h = elim (Bool-cases (fd ==ℤ k)) [
  | inl e ↦
      let same = (==ℤ_iff fd k).0 e in
      let there = rw (find-insert k fd _ infs, e) at h in
      sym (ap (λ o. (inf_of inf o).fd) there) ∙ same
  | inr e ↦ keyed k inf (rw (find-insert k fd _ infs, e) at h)
]

module _ (l : Linux) where
  -- The calls that change the table.
  pub data Op : Type 0 where
    opening : (domain type protocol : ℤ) → Op
    accepting : ℤ → Op
    closing : ℤ → Op

  pub run_calls : List Op → Infs → l.World → Infs × l.World
  run_calls [] infs w = (infs, w)
  run_calls (opening domain type protocol ∷ os) infs w =
      let (_, infs', w') = co_socket l domain type protocol infs w in run_calls os infs' w'
  run_calls (accepting fd ∷ os) infs w =
      let (_, infs', w') = co_accept l fd infs w in run_calls os infs' w'
  run_calls (closing fd ∷ os) infs w =
      let (_, infs', w') = co_close l fd infs w in run_calls os infs' w'

  -- Closing changes the entry of one descriptor of a keyed table: an object is removed with its
  -- entry, but where there was no object, a NULL pointer is left.
  pub find-co_close :
      (fd k : ℤ) (infs : Infs) (w : l.World)
      → IsKeyed infs
      → find k (co_close l fd infs w).1 ≡ (if fd ==ℤ k then closed (find fd infs) else find k infs)
  unfolding co_close delete_socket_inf
  find-co_close fd k infs w keyed = elim (entry_cases (find fd infs)) [
    | inl h ↦ rw (h, co_close) (find-insert k fd none infs)
    | inr (inl h) ↦ elim (Bool-cases (fd ==ℤ k)) [
      | inl e ↦ rw (h, co_close, e) (rw ((==ℤ_iff fd k).0 e) at h)
      | inr e ↦ rw (h, co_close, e) refl
    ]
    | inr (inr (i, h)) ↦ rw (h, co_close, delete_socket_inf, keyed fd i h) (find-erase k fd infs)
  ]

  co_socket-IsKeyed :
      (domain type protocol : ℤ) (infs : Infs) (w : l.World)
      → IsKeyed infs
      → IsKeyed (co_socket l domain type protocol infs w).1
  unfolding co_socket
  co_socket-IsKeyed domain type protocol infs w keyed =
      let fd = (l.socket domain type protocol w).0 in
      elim (Bool-cases (ltbℤ fd (pos 0))) [
        | inl bad ↦ rw bad keyed
        | inr good ↦ rw good (new_socket_inf-IsKeyed (some domain) fd infs keyed)
      ]

  co_accept-IsKeyed :
      (fd : ℤ) (infs : Infs) (w : l.World) → IsKeyed infs → IsKeyed (co_accept l fd infs w).1
  unfolding co_accept
  co_accept-IsKeyed fd infs w keyed = new_socket_inf-IsKeyed none _ infs keyed

  co_close-IsKeyed :
      (fd : ℤ) (infs : Infs) (w : l.World) → IsKeyed infs → IsKeyed (co_close l fd infs w).1
  co_close-IsKeyed fd infs w keyed k inf h = elim (Bool-cases (fd ==ℤ k)) [
    | inr e ↦ keyed k inf (rw (find-co_close fd k infs w keyed, e) at h)
    | inl e ↦
        absurd (closed_empty (find fd infs) inf (rw (find-co_close fd k infs w keyed, e) at h))
  ]

  -- Whatever sockets are opened, accepted and closed, in whatever order, every object of the table
  -- stands at its own descriptor, when it was so before.
  pub run_calls-IsKeyed :
      (os : List Op) (infs : Infs) (w : l.World) → IsKeyed infs → IsKeyed (run_calls os infs w).0
  unfolding run_calls
  run_calls-IsKeyed [] infs w keyed = keyed
  run_calls-IsKeyed (opening domain type protocol ∷ os) infs w keyed =
      run_calls-IsKeyed os _ _ (co_socket-IsKeyed domain type protocol infs w keyed)
  run_calls-IsKeyed (accepting fd ∷ os) infs w keyed =
      run_calls-IsKeyed os _ _ (co_accept-IsKeyed fd infs w keyed)
  run_calls-IsKeyed (closing fd ∷ os) infs w keyed =
      run_calls-IsKeyed os _ _ (co_close-IsKeyed fd infs w keyed)

  -- A socket that is opened, at a descriptor without an entry, and closed again leaves every entry
  -- of a keyed table as it was.
  pub co_close-co_socket :
      (domain type protocol : ℤ) (infs : Infs) (w w' : l.World) (fd k : ℤ)
      → IsKeyed infs
      → (l.socket domain type protocol w).0 ≡ fd
      → ltbℤ fd (pos 0) ≡ false
      → find fd infs ≡ none
      → find k (co_close l fd (co_socket l domain type protocol infs w).1 w').1 ≡ find k infs
  unfolding co_socket new_socket_inf
  co_close-co_socket domain type protocol infs w w' fd k keyed opened good free =
      let infs' = new_socket_inf (some domain) fd infs in
      let keyed' = new_socket_inf-IsKeyed (some domain) fd infs keyed in
      rw (co_socket, opened, good, find-co_close fd k infs' w' keyed', find-insert_self fd _ infs)
        (elim (Bool-cases (fd ==ℤ k)) [
          | inl e ↦ rw e (sym free ∙ ap (λ j. find j infs) ((==ℤ_iff fd k).0 e))
          | inr e ↦ rw (e, find-insert k fd _ infs, e) refl
        ])

-- ===== src/Registry/Numbers.antt =====
-- The number of a thread and its scheduler.
use batonlib.Base.{
  ℕ, ◌≡◌, refl, ◌≢◌, sym, ap, ◌∙◌, inl, inr, Bool, false, Bool-cases, none, Option-cases, List, [],
  ◌∷◌, ◌==◌, ◌||◌, not, if◌then◌else◌, arith, Option, some, true,
}
use batonlib.Int.{pos}
use batonlib.FdMap.{find, find-insert, find-erase}
use batonlib.Registry.{PidCache, get_pid, Schedulers, register, unregister, get_curr_thr_sch}

-- A thread with the numbers that the operating system gives it.
pub record Numbered : Type 0 where
  pub pid : ℕ
  pub tid : ℕ
  pub cache : PidCache

-- It asks for its number, or goes on as the only thread of a new process.
pub data Event : Type 0 where
  asking : Event
  forking : (pid tid : ℕ) → Event

pub after : Event → Numbered → Numbered
after asking n = record n { cache = (get_pid n.pid n.tid n.cache).1 }
after (forking pid tid) n = record n { pid = pid; tid = tid }

-- A new process has another number than the one that is kept.
pub IsNew : Event → Numbered → Type 0
IsNew asking n = Unit
IsNew (forking pid tid) n = pid ≢ n.cache.pid

pub AllNew : List Event → Numbered → Type 0
AllNew [] n = Unit
AllNew (e ∷ es) n = IsNew e n × AllNew es (after e n)

pub afters : List Event → Numbered → Numbered
afters [] n = n
afters (e ∷ es) n = afters es (after e n)

-- What is kept for the process is the thread's number.
pub IsTrue : Numbered → Type 0
IsTrue n = n.cache.pid ≡ n.pid → n.cache.tid ≢ 0 → n.cache.tid ≡ n.tid

abbrev is_stale : (getpid : ℕ) → PidCache → Bool
is_stale getpid c = c.pid == 0 || (c.tid == 0 || not (c.pid == getpid))

after-IsTrue : (e : Event) (n : Numbered) → IsTrue n → IsNew e n → IsTrue (after e n)
unfolding IsTrue IsNew after get_pid
after-IsTrue asking n t _ = elim (Bool-cases (is_stale n.pid n.cache)) [
  | inl stale ↦ rw (get_pid, stale) (λ e f. refl)
  | inr good ↦ rw (get_pid, good) t
]
after-IsTrue (forking pid tid) n t new = λ e f. absurd (new (sym e))

afters-IsTrue : (es : List Event) (n : Numbered) → IsTrue n → AllNew es n → IsTrue (afters es n)
unfolding afters AllNew
afters-IsTrue [] n t _ = t
afters-IsTrue (e ∷ es) n t (new, rest) = afters-IsTrue es (after e n) (after-IsTrue e n t new) rest

-- Whatever a thread has asked before, and however often it has gone on in a new process whose number is
-- not the one that it keeps: it gets its own number.
pub get_pid_lem :
    (es : List Event) (n : Numbered)
    → n.cache ≡ record { pid = 0; tid = 0 }
    → AllNew es n
    → (get_pid (afters es n).pid (afters es n).tid (afters es n).cache).0 ≡ (afters es n).tid
unfolding get_pid IsTrue
get_pid_lem es n new fresh =
    let n' = afters es n in
    let t : IsTrue n' = afters-IsTrue es n (λ e f. absurd (f (ap (λ c. c.tid) new))) fresh in
    elim (Bool-cases (is_stale n'.pid n'.cache)) [
      | inl stale ↦ rw (get_pid, stale) refl
      | inr good ↦ rw (get_pid, good) (t (ground arith) (λ z. ground arith))
    ]

-- What threads do with their schedulers: one constructs the scheduler `self`, or destroys one.
pub data Making : Type 0 where
  making : (tid self : ℕ) → Making
  deleting : (tid : ℕ) → Making

-- Whether it goes on, and the map then.
unfoldable pub apply : Making → Schedulers → Bool × Schedulers
apply (making tid self) m = register tid self m
apply (deleting tid) m = (true, unregister tid m)

unfoldable pub applies : List Making → Schedulers → List Bool × Schedulers
applies [] m = ([], m)
applies (e ∷ es) m =
    let (went_on, m1) = apply e m in let (rest, m2) = applies es m1 in (went_on ∷ rest, m2)

abbrev is_free : Option ℕ → Bool
is_free none = true
is_free (some other) = false

-- The first scheduler that is constructed on a thread is the thread's own until one is destroyed there.
abbrev took : (self : ℕ) → Option ℕ → ℕ
took self none = self
took self (some first) = first

-- The schedulers of all threads, one of each at most.
abbrev own : Making → (ℕ → Option ℕ) → ℕ → Option ℕ
own (making tid self) owner thread =
    if tid == thread then some (took self (owner thread)) else owner thread
own (deleting tid) owner thread = if tid == thread then none else owner thread

abbrev goes_on : Making → (ℕ → Option ℕ) → Bool
goes_on (making tid self) owner = is_free (owner tid)
goes_on (deleting tid) owner = true

-- What the constructors and destructors answer.
unfoldable pub answers : List Making → (ℕ → Option ℕ) → List Bool
answers [] owner = []
answers (e ∷ es) owner = goes_on e owner ∷ answers es (own e owner)

unfoldable pub owners : List Making → (ℕ → Option ℕ) → ℕ → Option ℕ
owners [] owner = owner
owners (e ∷ es) owner = owners es (own e owner)

-- The map holds each thread's scheduler.
unfoldable pub Keeps : Schedulers → (ℕ → Option ℕ) → Type 0
Keeps m owner = (thread : ℕ) → get_curr_thr_sch thread m ≡ owner thread

apply-Keeps :
    (e : Making) (m : Schedulers) (owner : ℕ → Option ℕ)
    → Keeps m owner
    → ((apply e m).0 ≡ goes_on e owner) × Keeps (apply e m).1 (own e owner)
unfolding Keeps apply get_curr_thr_sch register unregister
apply-Keeps (making tid self) m owner k = elim (Option-cases (find (pos tid) m)) [
  | inl free ↦
      let free' : owner tid ≡ none = sym (k tid) ∙ free in
      rw (register, free, free')
        (
          refl,
          λ thread. find-insert (pos thread) (pos tid) self m ∙ elim (Bool-cases (tid == thread)) [
            | inl same ↦
                let e : tid ≡ thread = (ground arith) in
                rw same (sym (ap (λ o. some (took self o)) (sym (ap owner e) ∙ free')))
            | inr other ↦ rw other (k thread)
          ],
        )
  | inr (first, there) ↦
      let there' : owner tid ≡ some first = sym (k tid) ∙ there in
      rw (register, there, there')
        (
          refl,
          λ thread. elim (Bool-cases (tid == thread)) [
            | inl same ↦
                let e : tid ≡ thread = (ground arith) in
                let mine : owner thread ≡ some first = sym (ap owner e) ∙ there' in
                rw (same, mine) (k thread ∙ mine)
            | inr other ↦ rw other (k thread)
          ],
        )
]
apply-Keeps (deleting tid) m owner k = (
  refl,
  λ thread. find-erase (pos thread) (pos tid) m ∙ elim (Bool-cases (tid == thread)) [
    | inl same ↦ rw same refl
    | inr other ↦ rw other (k thread)
  ],
)

-- Whatever threads construct and destroy, in any order: a constructor goes on when its thread has no
-- scheduler and is refused otherwise, the first scheduler stays the thread's own when others are refused,
-- and is forgotten when any scheduler is destroyed there, a refused one included; no other thread's
-- scheduler changes.
pub applies-Keeps :
    (es : List Making) (m : Schedulers) (owner : ℕ → Option ℕ)
    → Keeps m owner
    → ((applies es m).0 ≡ answers es owner) × Keeps (applies es m).1 (owners es owner)
unfolding applies answers owners
applies-Keeps [] m owner k = (refl, k)
applies-Keeps (e ∷ es) m owner k =
    let (same, k1) = apply-Keeps e m owner k in
    let (rest, k2) = applies-Keeps es (apply e m).1 (own e owner) k1 in (rw (same, rest) refl, k2)

-- ===== src/Registry.antt =====
-- The schedulers of the threads: `scheduler::g_thr_to_sch` (Batonlib/scheduler.cpp), by the number of the
-- thread, which `GetPid` keeps for each thread (Batonlib/tool.cpp).
pub mod Numbers
mod Tests
use batonlib.Base.{
  ℕ, ◌+◌, ◌*◌, ◌/◌, ◌%◌, ◌^◌, Bool, true, false, not, ◌||◌, Option, none, some, List, ◌==◌,
  if◌then◌else◌,
}
use batonlib.Int.{ℤ, pos}
use batonlib.FdMap.{find, insert, erase}

-- The two variables of a thread; 0 is none yet.
pub record PidCache : Type 0 where
  pub pid : ℕ
  pub tid : ℕ

-- `getpid` and `gettid` are what the operating system answers.
pub get_pid : (getpid gettid : ℕ) → PidCache → ℕ × PidCache
get_pid getpid gettid c =
    if c.pid == 0 || (c.tid == 0 || not (c.pid == getpid))
    then (gettid, record { pid = getpid; tid = gettid })
    else (c.tid, c)

pub get_now_time_ms : (tv_sec tv_usec : ℕ) → ℕ
get_now_time_ms tv_sec tv_usec = (tv_sec * 1000 + tv_usec / 1000) % 2 ^ 64

abbrev pub Schedulers : Type 0
Schedulers = List (ℤ × ℕ)

-- The constructor, with whether it goes on; `self` is its object.
pub register : (tid self : ℕ) → Schedulers → Bool × Schedulers
register tid self m = elim (find (pos tid) m) [
  | none ↦ (true, insert (pos tid) self m)
  | some other ↦ (false, m)
]

-- The destructor.
pub unregister : (tid : ℕ) → Schedulers → Schedulers
unregister tid m = erase (pos tid) m

unfoldable pub get_curr_thr_sch : (tid : ℕ) → Schedulers → Option ℕ
get_curr_thr_sch tid m = find (pos tid) m

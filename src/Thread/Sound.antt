-- ===== src/Thread/Sound.antt =====
-- What holds of a thread that is started and the one that starts it.
use batonlib.Base.{ℕ, ◌+◌, ◌≤◌, ◌≡◌, Bool, true, false, Option, none, some, arith, if◌then◌else◌}
use batonlib.Int.{pos}
use batonlib.Monitor.Counts.{sleepers, risers}
use batonlib.Thread.Steps.{
  Child, absent, begun, numbered, told, ended, Caller, outside, arriving, asleep, started, joined,
  Pair,
}

abbrev pub is_there : Child → Bool
is_there absent = false
is_there begun = true
is_there numbered = true
is_there told = true
is_there ended = true

abbrev pub has_number : Child → Bool
has_number absent = false
has_number begun = false
has_number numbered = true
has_number told = true
has_number ended = true

abbrev pub has_told : Child → Bool
has_told absent = false
has_told begun = false
has_told numbered = false
has_told told = true
has_told ended = true

abbrev pub is_behind : Caller → Bool
is_behind outside = false
is_behind arriving = false
is_behind asleep = false
is_behind started = true
is_behind joined = true

abbrev pub sleeps : Caller → ℕ
sleeps outside = 0
sleeps arriving = 0
sleeps asleep = 1
sleeps started = 0
sleeps joined = 0

abbrev pub count_of : Child → ℕ
count_of c = if has_told c then 0 else 1

pub sleeps_le : (w : Caller) → sleeps w ≤ 1
sleeps_le w = ground arith

-- The new thread's number is there when it has it, and with it when `start` has returned; nobody sleeps
-- once it has told.
pub record IsStarted (number : ℕ) (p : Pair) : Type 0 where
  pub there : p.thread.start ≡ is_there p.child
  pub count : p.thread.latch.count ≡ pos (count_of p.child)
  pub tid : has_number p.child ≡ true → p.thread.tid ≡ pos number
  pub behind : is_behind p.caller ≡ true → has_told p.child ≡ true
  pub waiters : sleepers p.thread.latch.cond + risers p.thread.latch.cond ≡ sleeps p.caller
  pub awake : has_told p.child ≡ true → sleepers p.thread.latch.cond ≡ 0

unfoldable pub Good : ℕ → Option Pair → Type 0
Good number none = Unit
Good number (some p) = IsStarted number p

pub told-has_number : (c : Child) → has_told c ≡ true → has_number c ≡ true
told-has_number c h = ground arith

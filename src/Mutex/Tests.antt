-- ===== src/Mutex/Tests.antt =====
-- One thread takes the mutex while another one is in the midst of giving it back.
use batonlib.Base.{◌≡◌, refl, Bool, true, false, Option, none, some, List, [], ◌∷◌, arith}
use batonlib.Stdio.{Pthread}
use batonlib.Mutex.{new_mutex, may_wait}
use batonlib.Mutex.Threads.{
  Threads, Event, acquiring, raising, releasing, lowering, fresh, apply, applies, lowering_late,
}

abbrev relock : Bool → Option Bool
relock true = none
relock false = some true

abbrev pub pthread : Pthread
pthread = record {
  mutex_lock = relock;
  mutex_unlock = λ held. false;
  lock_free = refl;
  lock_held = refl;
  unlock_held = refl;
}

abbrev handed_on : List Event
handed_on = acquiring ∷ raising ∷ releasing ∷ acquiring ∷ raising ∷ []

abbrev second_inside : Threads
second_inside = record {
  mutex = record { held = true; is_lock = true };
  locking = 0;
  inside = 1;
  unlocking = 1;
}

handed_on_lem : applies pthread handed_on fresh ≡ some second_inside
unfolding applies apply fresh new_mutex
handed_on_lem = refl

lowering_late_example :
    (t : Threads) × (apply pthread lowering second_inside ≡ some t)
    × (t.inside ≡ 1)
    × (t.mutex.held ≡ true)
    × (may_wait t.mutex ≡ false)
lowering_late_example =
    lowering_late pthread handed_on second_inside handed_on_lem (omega arith) (omega arith)

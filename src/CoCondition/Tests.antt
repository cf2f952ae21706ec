-- ===== src/CoCondition/Tests.antt =====
-- Two coroutines wait for a condition, and a third one joins them.
use batonlib.Base.{◌+◌, ◌-◌, ◌≡◌, refl, true, false, List, [], ◌∷◌, ltb, arith}
use batonlib.Int.{negsuc}
use batonlib.Memory.{Ptr, Memory, valid}
use batonlib.Memory.Returns.{Returns}
use batonlib.Link.{IsLink}
use batonlib.CoCondition.{co_cond_wait, co_cond_signal}
use batonlib.CoCondition.Waiting.{Waits, Signalled, co_cond_signal_lem}
use batonlib.CoCondition.Wait.{co_cond_wait_lem}

-- The items 1, 2 and 3 of the events 21, 22 and 23 are on no link, and every link is empty.
abbrev parked : Memory
parked = record {
  item_live = λ a. ltb a 4;
  next = λ a. 0;
  prev = λ a. 0;
  t_link = λ a. 0;
  expire_time = λ a. 0;
  process = λ a. 0;
  arg = λ a. 0;
  item = λ a. 20 + a;
  isremove = λ a. false;
  link_live = λ l. true;
  head = λ l. 0;
  tail = λ l. 0;
  events = record {
    live = λ a. ltb a 24;
    fd = λ a. negsuc 0;
    is_timeout = λ a. false;
    co = λ a. 100 + a;
    t_item = λ e. e - 20;
  };
}

active-IsLink : IsLink parked 12 []
unfolding valid
active-IsLink = record { live = refl; head = refl; tail = refl; chain = tt }

two-Waits : Waits parked (21 ∷ 22 ∷ []) (1 ∷ 2 ∷ [])
unfolding valid
two-Waits = (
  record { live = refl; t_item = refl; item_valid = refl; free = refl },
  refl,
  refl,
  (record { live = refl; t_item = refl; item_valid = refl; free = refl }, refl, refl, tt),
)

co_cond_signal_lem_example :
    Returns
      (co_cond_signal (record { co_deque = 21 ∷ 22 ∷ []; active_link = 12 }) parked)
      (λ (r, cond) m'. Signalled parked m' 12 [] (21 ∷ 22 ∷ []) (1 ∷ 2 ∷ []) r cond.co_deque)
co_cond_signal_lem_example =
    co_cond_signal_lem parked 12 [] (21 ∷ 22 ∷ []) (1 ∷ 2 ∷ []) active-IsLink two-Waits

co_cond_wait_lem_example :
    Returns
      (co_cond_wait (record { co_deque = 21 ∷ 22 ∷ []; active_link = 12 }) 24 4 99 parked)
      (λ cond m'.
        (cond ≡ record { co_deque = 21 ∷ 22 ∷ 24 ∷ []; active_link = 12 })
        × Waits m' (21 ∷ 22 ∷ 24 ∷ []) (1 ∷ 2 ∷ 4 ∷ [])
        × (m'.events.co 24 ≡ 99)
        × ((l : Ptr) (xs : List Ptr) → IsLink parked l xs → IsLink m' l xs))
co_cond_wait_lem_example =
    co_cond_wait_lem parked 12 24 4 99 (21 ∷ 22 ∷ []) (1 ∷ 2 ∷ []) (omega arith) (omega arith) refl
      refl two-Waits

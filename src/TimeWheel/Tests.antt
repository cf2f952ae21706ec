-- ===== src/TimeWheel/Tests.antt =====
-- A wheel of two slots that hold one item each, and the theorems of the time wheel on it.
use batonlib.Base.{
  ℕ, zero, suc, ◌+◌, ◌-◌, ◌<◌, ◌≡◌, refl, ◌≢◌, true, false, List, [], ◌∷◌, ◌∈◌, ◌∉◌, arith, ◌==◌,
  ltb, if◌then◌else◌, length, eq_of_mem,
}
use batonlib.Int.{negsuc}
use batonlib.Memory.{Ptr, Memory, valid, and_then}
use batonlib.Memory.Returns.{Returns}
use batonlib.Link.{IsLink}
use batonlib.TimeWheel.{TimeWheel, slot_index, add_timeout, no_value, removeitem, take_all_timeout}
use batonlib.TimeWheel.Ring.{Contents, link_at, IsWheel, Due, HasRoom, put_at}
use batonlib.TimeWheel.Add.{add_timeout_lem}
use batonlib.TimeWheel.Remove.{Unchained, removeitem_lem}
use batonlib.TimeWheel.Take.{take_all_timeout_lem}
use batonlib.TimeWheel.Take.Expired.{taken}
use batonlib.TimeWheel.Take.Exact.{Expires, expired, pending}
use batonlib.TimeWheel.Limits.{full_turn_expires_early}

-- Items 1 and 2 stand on the links 10 and 11, item 3, due at `time`, on none; link 12 is for the
-- result. The event of an item `a` is `20 + a`.
abbrev pub sample : ℕ → Memory
sample time = record {
  item_live = λ a. ltb a 4;
  next = λ a. 0;
  prev = λ a. 0;
  t_link = λ a. if a == 1 then 10 else if a == 2 then 11 else 0;
  expire_time = λ a. if a == 3 then time else 99 + a;
  process = λ a. 0;
  arg = λ a. 0;
  item = λ a. 20 + a;
  isremove = λ a. false;
  link_live = λ l. true;
  head = λ l. if l == 10 then 1 else if l == 11 then 2 else 0;
  tail = λ l. if l == 10 then 1 else if l == 11 then 2 else 0;
  events = record {
    live = λ a. true;
    fd = λ a. negsuc 0;
    is_timeout = λ a. false;
    co = λ a. 0;
    t_item = λ e. e - 20;
  };
}

abbrev pub wheel : TimeWheel
wheel = record { w_size = 2; w_start = 100; w_index = 4; time_wheel = 10 ∷ 11 ∷ []; isms = true }

abbrev pub held : Contents
held i = if i == 0 then 1 ∷ [] else 2 ∷ []

pub first-IsLink : (time : ℕ) → IsLink (sample time) 10 (1 ∷ [])
unfolding valid
first-IsLink time = record {
  live = refl;
  head = refl;
  tail = refl;
  chain = (refl, refl, refl, refl, refl, tt);
}

second-IsLink : (time : ℕ) → IsLink (sample time) 11 (2 ∷ [])
unfolding valid
second-IsLink time = record {
  live = refl;
  head = refl;
  tail = refl;
  chain = (refl, refl, refl, refl, refl, tt);
}

result-IsLink : (time : ℕ) → IsLink (sample time) 12 []
unfolding valid
result-IsLink time = record { live = refl; head = refl; tail = refl; chain = tt }

links : (time i : ℕ) → i < 2 → IsLink (sample time) (link_at wheel i) (held i)
links time zero h = first-IsLink time
links time (suc zero) h = second-IsLink time
links time (suc (suc i)) h = absurd (omega arith)

distinct : (i j : ℕ) → i < 2 → j < 2 → link_at wheel i ≡ link_at wheel j → i ≡ j
distinct zero zero hi hj e = refl
distinct zero (suc zero) hi hj e = absurd (omega arith)
distinct (suc zero) zero hi hj e = absurd (omega arith)
distinct (suc zero) (suc zero) hi hj e = refl
distinct (suc (suc i)) j hi hj e = absurd (omega arith)
distinct zero (suc (suc j)) hi hj e = absurd (omega arith)
distinct (suc zero) (suc (suc j)) hi hj e = absurd (omega arith)

pub sample-IsWheel : (time : ℕ) → IsWheel (sample time) wheel held
sample-IsWheel time = record {
  positive = omega arith;
  width = refl;
  links = links time;
  distinct = distinct;
}

-- A statement on both slots.
pub both : (P : ℕ → Type 0) → P 0 → P 1 → (i : ℕ) → i < 2 → P i
both P a b zero h = a
both P a b (suc zero) h = b
both P a b (suc (suc i)) h = absurd (omega arith)

pub sample-Due : (time : ℕ) → Due (sample time).expire_time wheel held
unfolding slot_index
sample-Due time zero a h there =
    let e : a ≡ 1 = eq_of_mem a 1 there in rw e (omega arith, omega arith, refl)
sample-Due time (suc zero) a h there =
    let e : a ≡ 2 = eq_of_mem a 2 there in rw e (omega arith, omega arith, refl)
sample-Due time (suc (suc i)) a h there = absurd (omega arith)

pub sample-HasRoom : HasRoom wheel
sample-HasRoom = omega arith

removeitem_lem_example :
    Returns (removeitem 1 (sample 101)) (λ _. Unchained (sample 101) 10 1 [] [])
removeitem_lem_example = removeitem_lem (sample 101) 10 1 [] [] (first-IsLink 101)

add_timeout_lem_example : Returns (add_timeout wheel 3 (sample 101)) (λ r m'.
    (r ≡ no_value)
    × IsWheel m' wheel (put_at held 1 (2 ∷ 3 ∷ []))
    × Due m'.expire_time wheel (put_at held 1 (2 ∷ 3 ∷ [])))
unfolding valid slot_index
add_timeout_lem_example =
    add_timeout_lem (sample-IsWheel 101) 3 refl sample-HasRoom (sample-Due 101) refl
      (both (λ i. 3 ∉ held i) refl refl) (omega arith) (omega arith)

take_all_timeout_lem_example : Returns (take_all_timeout 2 wheel 100 12 (sample 101)) (λ tw' m'.
    (tw'.w_start ≡ 100)
    × Expires
        (sample 101).expire_time
        wheel
        held
        100
        (expired wheel held 100)
        (pending wheel held 100)
    × IsLink m' 12 (expired wheel held 100)
    × IsWheel m' tw' (pending wheel held 100)
    × Due m'.expire_time tw' (pending wheel held 100))
take_all_timeout_lem_example =
    take_all_timeout_lem 2 (sample 101) wheel held 100 12 [] refl sample-HasRoom
      (sample-IsWheel 101) (sample-Due 101) (result-IsLink 101)
      (both (λ i. 12 ≢ link_at wheel i) (omega arith) (omega arith))
      (both (λ i. length (held i) < 2) (omega arith) (omega arith)) (omega arith) (omega arith)

expired_example : expired wheel held 100 ≡ 1 ∷ []
unfolding taken slot_index
expired_example = refl

full_turn_expires_early_example :
    Returns
      (and_then (add_timeout wheel 3 (sample 102)) (λ _. take_all_timeout 3 wheel 100 12))
      (λ tw' m'. (out : List Ptr) × IsLink m' 12 out × (3 ∈ out))
unfolding valid
full_turn_expires_early_example =
    full_turn_expires_early 3 (sample 102) wheel held 100 3 12 [] refl sample-HasRoom
      (sample-IsWheel 102) (result-IsLink 102)
      (both (λ i. 12 ≢ link_at wheel i) (omega arith) (omega arith)) refl refl
      (both (λ i. (3 ∉ held i) × (suc (length (held i)) < 3)) (refl, omega arith)
        (refl, omega arith))
      refl (omega arith) (omega arith)

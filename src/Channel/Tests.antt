-- ===== src/Channel/Tests.antt =====
-- A channel of capacity one: a second `put` waits, and the values come out in order.
use batonlib.Base.{ℕ, ◌≡◌, refl, true, false, List, [], ◌∷◌}
use batonlib.Int.{pos}
use batonlib.Channel.{new_channel}
use batonlib.Channel.Calls.{Call, putting, getting, Log, IsSound, calls, new_log, calls_lem}
use batonlib.Channel.Calls.Closed.{calls_closed}

-- The coroutine 8 waits until 9 has taken the first value, and is then resumed.
abbrev traffic : List (Call ℕ)
traffic = putting 7 100 ∷ putting 8 200 ∷ getting 9 ∷ putting 8 200 ∷ getting 9 ∷ putting 7 300 ∷ []

calls_lem_example : IsSound (calls traffic (new_log (pos 1)))
calls_lem_example = calls_lem (pos 1) traffic

abbrev closed_log : Log ℕ
closed_log = record {
  ch = record (new_channel (pos 1)) { is_closed = true; queue = 5 ∷ []; size = 1 };
  accepted = 5 ∷ [];
  taken = [];
  faulted = false;
}

calls_closed_example :
    ((calls traffic closed_log).accepted ≡ 5 ∷ []) × ((calls traffic closed_log).taken ≡ [])
calls_closed_example = calls_closed traffic closed_log refl

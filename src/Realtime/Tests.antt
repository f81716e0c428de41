-- ===== src/Realtime/Tests.antt =====
-- Two subscribers and three messages: the theorems about the broker at them.
use egreen_quanta_tes.Base.{ℕ, ◌≤◌, ◌≡◌, refl, true, some, List, [], ◌∷◌, ◌++◌, length, find, arith}
use egreen_quanta_tes.Realtime.{
  Queue, Event, subscribed, left, read, published, max_queue, has_id, run, publish, subscribe,
}
use egreen_quanta_tes.Realtime.Delivery.{run_one, delivered, all_sent, run-all_sent}

abbrev fresh : Queue ℕ
fresh = record { id = 1; pending = []; live = true }

abbrev other : Queue ℕ
other = record { id = 2; pending = 9 ∷ []; live = true }

abbrev events : List (Event ℕ)
events = published 4 ∷ read 1 ∷ left 2 ∷ published 5 ∷ subscribed 3 ∷ published 6 ∷ []

is_found : find (has_id 1) (run events (other ∷ fresh ∷ [])) ≡ some (run_one 1 events fresh)
unfolding publish subscribe
is_found = refl

run-all_sent_example :
    (delivered 1 events fresh ++ (run_one 1 events fresh).pending ≡ [] ++ all_sent 1 events)
    × (length (run_one 1 events fresh).pending ≤ max_queue)
run-all_sent_example =
    run-all_sent 1 events (other ∷ fresh ∷ []) fresh (run_one 1 events fresh) refl (omega arith)
      is_found refl

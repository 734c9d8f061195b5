-- ===== src/Alerts/Examples.antt =====
-- A node that is seen, and then not for longer than the limit.
use mathlib.Core.List.{Memᴰ}
use encode_system.Prelude.{◌≡◌, ◌↔◌, refl, [], ◌∷◌, true, false, some}
use encode_system.Table.{select_one}
use encode_system.Model.{Node}
use encode_system.Samples.{node}
use encode_system.Alerts.{Tick, Transition, node_alert_tick, run_node_alert_loop, states_of}
use encode_system.Alerts.Changes.{Changed, tick-Changed}

abbrev seen_node : Node
seen_node = record (node 1 1) { last_seen = some 100 }

abbrev first_tick : Tick
first_tick = record { now = 110; enabled = false; nodes = some (seen_node ∷ []) }

abbrev second_tick : Tick
second_tick = record { now = 200; enabled = true; nodes = some (seen_node ∷ []) }

abbrev gone : Transition
gone = record { node_id = 1; name = "node"; to_online = false; last_seen = some 100 }

-- the first tick is silent, and so is a third that sees no change
loop_test :
    run_node_alert_loop 45 (first_tick ∷ second_tick ∷ second_tick ∷ []) []
    ≡ [] ∷ (gone ∷ []) ∷ [] ∷ []
unfolding run_node_alert_loop select_one
loop_test = refl

tick-Changed_example :
    Memᴰ gone (node_alert_tick 45 second_tick (node_alert_tick 45 first_tick []).0).1
    ↔ Changed (states_of 45 110 (seen_node ∷ [])) (states_of 45 200 (seen_node ∷ [])) gone
tick-Changed_example =
    tick-Changed 45 [] first_tick second_tick (seen_node ∷ []) (seen_node ∷ []) gone refl refl refl

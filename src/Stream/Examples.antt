-- ===== src/Stream/Examples.antt =====
-- Two subscribers of one job, of which one leaves.
use encode_system.Prelude.{refl, List, [], ◌∷◌, arith}
use encode_system.Table.{select_one}
use encode_system.Stream.{SseEvent, progress_event, Subscriber, LogHub}
use encode_system.Stream.Order.{
  HubOp, subscribes, unsubscribes, publishes, receives, Delivered, run_hub-Delivered,
}

abbrev event : SseEvent
event = progress_event "encode" 40 []

abbrev open_sub : Subscriber
open_sub = record { channel = 1; job = 7; waiting = [] }

abbrev hub : LogHub
hub = record {
  subs = record { channel = 2; job = 7; waiting = [] } ∷ open_sub ∷ [];
  next_channel = 3;
}

abbrev ops : List HubOp
ops = publishes 7 event ∷ unsubscribes 2 ∷ receives 1 ∷ subscribes 7 ∷ publishes 7 event ∷ []

run_hub-Delivered_example : Delivered 1 7 ops hub open_sub
unfolding select_one
run_hub-Delivered_example =
    run_hub-Delivered 1 7 ops hub open_sub (tt, (refl, (tt, (tt, (tt, tt)))))
      (refl, refl, omega arith, omega arith)

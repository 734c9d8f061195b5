-- ===== src/Leader/Examples.antt =====
-- Two replicas: one leads, loses its session, and the other takes over before the first has noticed.
use encode_system.Prelude.{◌+◌, ◌≤◌, ◌≡◌, ◌⊎◌, refl, arith, [], ◌∷◌, true, false}
use encode_system.Table.{count_where}
use encode_system.Leader.{
  Replica, LocalStep, ClusterStep, ClusterSteps, running, trying, exited, holds, runs, is_free,
}
use encode_system.Leader.Single.{orphaned, deaths, runs-bounded}
use encode_system.Leader.Stops.{LocalSteps, steps-Stopping}

abbrev leading : Replica
leading = record { phase = running; cancelled = false; session = true }

abbrev cut_off : Replica
cut_off = record { phase = running; cancelled = false; session = false }

abbrev next_up : Replica
next_up = record { phase = trying; cancelled = false; session = false }

takeover : ClusterSteps (leading ∷ next_up ∷ []) (cut_off ∷ leading ∷ [])
unfolding holds count_where is_free
takeover =
    ClusterSteps.then
      (ClusterSteps.then ClusterSteps.here
        (ClusterStep.local [] (next_up ∷ []) leading cut_off (LocalStep.session_dies refl)))
      (ClusterStep.local (cut_off ∷ []) [] next_up leading (LocalStep.acquire refl refl))

one_holder : count_where holds (leading ∷ next_up ∷ []) ≤ 1
unfolding holds count_where
one_holder = omega arith

-- both run the body now
two_run_test : count_where runs (cut_off ∷ leading ∷ []) ≡ 2
unfolding runs count_where
two_run_test = refl

none_orphaned : count_where orphaned (leading ∷ next_up ∷ []) ≡ 0
unfolding orphaned runs holds count_where
none_orphaned = refl

runs-bounded_example : count_where runs (cut_off ∷ leading ∷ []) ≤ 1 + deaths takeover
runs-bounded_example = runs-bounded takeover one_holder none_orphaned

abbrev stopping : Replica
stopping = record { phase = running; cancelled = true; session = true }

abbrev stopped : Replica
stopped = record { phase = exited; cancelled = true; session = false }

steps-Stopping_example :
    (1 ≤ 13) × ((stopped.phase ≡ exited) ⊎ ((t : Replica) × LocalStep true stopped t))
steps-Stopping_example =
    steps-Stopping true
      (LocalSteps.then {s = stopping} {t = stopped} true LocalSteps.here (LocalStep.body_done refl))
      refl

-- ===== src/Agent/Registry/Accept.antt =====
-- What the agent starts of what a controller hands it.
use encode_system.Prelude.{ℕ, ◌+◌, ◌≤◌, ◌≡◌, List, [], ◌∷◌, false, ◌==◌, length, All}
use encode_system.Heartbeat.Fill.{Payload}
use encode_system.Agent.Registry.{ActiveJob, max_local_jobs, has_key}

-- no two payloads have the same id
abbrev pub Distinct : List Payload → Type 0
Distinct [] = Unit
Distinct (p ∷ ps) = All (λ (q : Payload). (p.id == q.id) ≡ false) ps × Distinct ps

-- What is started: each new to the registry, no id twice, one registry entry for each, and none over
-- the cap.
pub record Started (jobs after : List (ℕ × ActiveJob)) (started : List Payload) : Type 0 where
  pub fresh : All (λ (p : Payload). has_key p.id jobs ≡ false) started
  pub distinct : Distinct started
  pub counted : length after ≡ length jobs + length started
  pub capped : length after ≤ max_local_jobs

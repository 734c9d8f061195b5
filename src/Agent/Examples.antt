-- ===== src/Agent/Examples.antt =====
-- The agent's bookkeeping on small inputs.
use encode_system.Prelude.{ℕ, ◌≤◌, ◌≡◌, List, [], ◌∷◌, Option, none, some, length}
use encode_system.Heartbeat.Fill.{Payload}
use encode_system.Agent.Observer.{Patterns, Observer, new_progress_tracker, write}
use encode_system.Agent.Observer.Chunks.{write_all, joined, write_all-joined}
use encode_system.Agent.Observer.Window.{last_of, observe_all, observe_all-new_progress_tracker}
use encode_system.Agent.Registry.{new_job, ActiveJob}

-- every line is a marker of one step
abbrev patterns : Patterns
patterns = record {
  step_line = λ line. some ("video", "50");
  metric_lines = λ line. ("vmaf", "95") ∷ [];
  parse_float = λ text. some 50;
}

abbrev observer : Observer
observer = record {
  trackers = record { starts = []; prog = new_progress_tracker 2; metrics = [] };
  buf = [];
  remainder = [];
}

abbrev pieces : List (List ℕ)
pieces = (97 ∷ []) ∷ (98 ∷ 10 ∷ 99 ∷ []) ∷ (10 ∷ []) ∷ []

write_all-joined_example :
    write_all patterns 5 pieces observer ≡ write patterns 5 (joined pieces) observer
write_all-joined_example = write_all-joined patterns 5 pieces observer tt

abbrev three : List (List ℕ)
three = (97 ∷ []) ∷ (98 ∷ []) ∷ (99 ∷ []) ∷ []

observe_all-new_progress_tracker_example :
    ((observe_all patterns three (new_progress_tracker 2)).ring
      ≡ last_of (new_progress_tracker 2).cap_n three)
    × (length (observe_all patterns three (new_progress_tracker 2)).ring
        ≤ (new_progress_tracker 2).cap_n)
observe_all-new_progress_tracker_example = observe_all-new_progress_tracker patterns 2 three

abbrev payload : ℕ → Option Payload
payload i = some (record { id = i; script = "script" })

-- one job is offered twice, and one runs already
abbrev offered : List (Option Payload)
offered = payload 4 ∷ payload 4 ∷ none ∷ payload 7 ∷ []

abbrev running_jobs : List (ℕ × ActiveJob)
running_jobs = (7, new_job (record { id = 7; script = "script" })) ∷ []

-- ===== src/Agent/Observer/Timings.antt =====
-- The step timings of a job add up to its time.
use encode_system.Prelude.{ℕ, ◌+◌, ◌≤◌, ◌≡◌, String, List, [], ◌∷◌, some, arith}
use encode_system.Model.{StepTiming}
use encode_system.Agent.Observer.{finish_timings}

-- the starts are in the order of time, and before the end
abbrev pub InOrder : ℕ → ℕ → List (String × ℕ) → Type 0
InOrder from until [] = from ≤ until
InOrder from until ((name, start) ∷ rest) = (from ≤ start) × InOrder start until rest

unfoldable pub total : List StepTiming → ℕ
total [] = 0
total (t ∷ ts) = t.duration_sec + total ts

InOrder-le :
    (from until : ℕ) (starts : List (String × ℕ)) → InOrder from until starts → from ≤ until
InOrder-le from until [] h = h
InOrder-le from until ((name, start) ∷ rest) h = omega (arith, h.0, InOrder-le start until rest h.1)

-- When the starts of the steps are in the order of time and before the end of the job, the
-- durations add up to the time from the first marker to the end: no second of a run is lost between
-- two steps or counted twice.
pub total-finish_timings :
    (until : ℕ) (name : String) (start : ℕ) (rest : List (String × ℕ))
    → InOrder start until rest
    → total (finish_timings (some until) ((name, start) ∷ rest)) + start ≡ until
unfolding total finish_timings
total-finish_timings until name start [] h = omega (arith, h)
total-finish_timings until name start ((other, next) ∷ rest) h =
    omega
      (arith, h.0, InOrder-le next until rest h.1, total-finish_timings until other next rest h.1)

-- ===== src/Agent/Ring.antt =====
-- LogRing of backend/internal/agent/logring.go: the agent's recent log lines, for the heartbeat.
pub mod Bounds
use encode_system.Prelude.{
  ℕ, ◌-◌, List, [], ◌∷◌, ◌++◌, Bool, ◌==◌, leb, if◌then◌else◌, length, drop,
}
use encode_system.FullLog.{newline, tail_on_line}
use encode_system.Agent.Registry.{join_lines}

abbrev pub log_ring_lines : ℕ
log_ring_lines = 40

abbrev pub log_ring_bytes : ℕ
log_ring_bytes = 8192

pub record LogRing : Type 0 where
  pub lines : List (List ℕ)
  pub pending : List ℕ

abbrev pub new_log_ring : LogRing
new_log_ring = record { lines = []; pending = [] }

abbrev pub carriage_return : ℕ
carriage_return = 13

-- strings.TrimRight(line, "\r")
abbrev pub unless_trailing : ℕ → List ℕ → List ℕ
unless_trailing c [] = if c == carriage_return then [] else c ∷ []
unless_trailing c (d ∷ ds) = c ∷ d ∷ ds

unfoldable pub trim_right : List ℕ → List ℕ
trim_right [] = []
trim_right (c ∷ cs) = unless_trailing c (trim_right cs)

-- the last `cap` items of a list that is longer
abbrev pub last_items : {A : Type 0} → ℕ → List A → List A
last_items cap xs = if leb (length xs) cap then xs else drop (length xs - cap) xs

-- pushLocked; an empty line is skipped
unfoldable pub push_locked : List ℕ → List (List ℕ) → List (List ℕ)
push_locked line lines = last_items log_ring_lines (lines ++ line ∷ [])

abbrev pub push_nonempty : List ℕ → List (List ℕ) → List (List ℕ)
push_nonempty [] lines = lines
push_nonempty (c ∷ cs) lines = push_locked (c ∷ cs) lines

-- the loop of Write: one byte, with the line read so far
unfoldable pub take_byte : ℕ → List ℕ × List (List ℕ) → List ℕ × List (List ℕ)
take_byte c (line, lines) =
    if c == newline then ([], push_nonempty (trim_right line) lines) else (line ++ c ∷ [], lines)

unfoldable pub take_bytes : List ℕ → List ℕ × List (List ℕ) → List ℕ × List (List ℕ)
take_bytes [] st = st
take_bytes (c ∷ cs) st = take_bytes cs (take_byte c st)

abbrev pub capped : List ℕ × List (List ℕ) → LogRing
capped (pending, lines) = record { lines = lines; pending = last_items log_ring_bytes pending }

-- Write
unfoldable pub write_ring : List ℕ → LogRing → LogRing
unfolding take_bytes
write_ring p r = capped (take_bytes (r.pending ++ p) ([], r.lines))

-- the lines, and the unterminated fragment when there is one
abbrev pub all_lines : LogRing → List ℕ → List (List ℕ)
all_lines r [] = r.lines
all_lines r (c ∷ cs) = r.lines ++ (c ∷ cs) ∷ []

-- Tail
unfoldable pub ring_tail : LogRing → List ℕ
ring_tail r = tail_on_line log_ring_bytes (join_lines (all_lines r r.pending))

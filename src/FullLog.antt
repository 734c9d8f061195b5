-- ===== src/FullLog.antt =====
-- The caps on stored logs. `cap_full_log` is capFullLog of backend/internal/store/store.go, and
-- `capture_run_log` the agent's captureRunLog of backend/internal/agent/steptrack.go;
-- `tail_on_line` is the cut that the heartbeat handler (backend/internal/api/handlers.go) and the
-- agent's log ring (backend/internal/agent/logring.go) make. A text is its list of bytes.
pub mod Bounds
pub mod Twice
mod Examples
use encode_system.Prelude.{
  ℕ, suc, ◌-◌, ◌/◌, ◌≤◌, List, [], ◌∷◌, ◌++◌, Bool, Option, none, some, ◌==◌, leb, if◌then◌else◌,
  length, drop,
}

abbrev pub newline : ℕ
newline = 10

-- data[i:] after the first newline, `none` where strings.IndexByte gives -1
unfoldable pub after_newline : List ℕ → Option (List ℕ)
after_newline [] = none
after_newline (c ∷ cs) = if c == newline then some cs else after_newline cs

-- data[cut] & 0xC0 == 0x80: a continuation byte of UTF-8, 0x80 to 0xBF
abbrev pub is_continuation : ℕ → Bool
is_continuation c = c / 64 == 2

-- for cut < len(data) && data[cut]&0xC0 == 0x80 { cut++ }
unfoldable pub skip_continuation : List ℕ → List ℕ
skip_continuation [] = []
skip_continuation (c ∷ cs) = if is_continuation c then skip_continuation cs else c ∷ cs

abbrev pub max_full_log_bytes : ℕ
max_full_log_bytes = 1_048_576

-- "[…truncated…]\n" in UTF-8
abbrev pub truncation_marker : List ℕ
truncation_marker =
    91 ∷ 226 ∷ 128 ∷ 166 ∷ 116 ∷ 114 ∷ 117 ∷ 110 ∷ 99 ∷ 97 ∷ 116 ∷ 101 ∷ 100 ∷ 226 ∷ 128 ∷ 166 ∷ 93
    ∷ 10 ∷ []

-- the part after the first newline, the whole where there is none
abbrev pub or_whole : List ℕ → Option (List ℕ) → List ℕ
or_whole cs none = cs
or_whole cs (some rest) = rest

-- The kept body of a log over the cap: the last `cap` bytes, moved on to a rune boundary and then
-- behind the next newline.
unfoldable pub kept_tail : ℕ → List ℕ → List ℕ
unfolding skip_continuation after_newline
kept_tail cap log =
    let tail = skip_continuation (drop (length log - cap) log) in or_whole tail (after_newline tail)

-- The cap is a parameter here, so that a small one can be run; the code's is `max_full_log_bytes`.
unfoldable pub cap_log : ℕ → List ℕ → List ℕ
unfolding kept_tail
cap_log cap log = if leb (length log) cap then log else truncation_marker ++ kept_tail cap log

unfoldable pub cap_full_log : List ℕ → List ℕ
unfolding cap_log
cap_full_log = cap_log max_full_log_bytes

-- out[len(out)-cap:], cut on a line boundary where there is one
unfoldable pub tail_on_line : ℕ → List ℕ → List ℕ
unfolding after_newline
tail_on_line cap out =
    let tail = drop (length out - cap) out in
    if leb (length out) cap then out else or_whole tail (after_newline tail)

-- indexByteFrom, on the part of the data from the offset on, is `after_newline` of that part.

abbrev pub align_slack : ℕ
align_slack = 64

-- captureRunLog of backend/internal/agent/steptrack.go reads only the end of a large file: the cap and
-- 64 bytes more.
unfoldable pub read_window : ℕ → List ℕ → List ℕ
read_window cap file = drop (length file - cap - align_slack) file

unfoldable pub capture_log : ℕ → List ℕ → List ℕ
unfolding read_window kept_tail
capture_log cap file =
    if leb (length file) cap
    then file
    else truncation_marker ++ kept_tail cap (read_window cap file)

unfoldable pub capture_run_log : List ℕ → List ℕ
unfolding capture_log
capture_run_log = capture_log max_full_log_bytes

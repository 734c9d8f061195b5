-- ===== src/Agent/Observer.antt =====
-- lineObserver and the trackers it feeds: stepTimingTracker of steptrack.go, progressTracker of
-- progress.go and metricTracker of encmetrics.go. The regular expressions and ParseFloat are
-- parameters.
pub mod Chunks
pub mod Timings
pub mod Window
use text.Mathlib.Text.{◌==◌ as ◌=s=◌}
use encode_system.Prelude.{
  ℕ, zero, suc, ◌-◌, String, List, [], ◌∷◌, ◌++◌, Bool, true, false, not, ◌&&◌, ◌||◌, Option, none,
  some, ◌==◌, leb, if◌then◌else◌, length, drop,
}
use encode_system.FullLog.{newline}
use encode_system.Model.{StepTiming}

-- stepLine.FindStringSubmatch and metricLine.FindAllStringSubmatch with the groups they capture, and
-- strconv.ParseFloat
pub record Patterns : Type 0 where
  pub step_line : List ℕ → Option (String × String)
  pub metric_lines : List ℕ → List (String × String)
  pub parse_float : String → Option ℕ

-- `order` with `starts`: each step that was seen, first seen first, with its start
unfoldable pub seen : String → List (String × ℕ) → Bool
seen name [] = false
seen name ((k, t) ∷ m) = k =s= name || seen name m

unfoldable pub observe_step : ℕ → Option (String × String) → List (String × ℕ) → List (String × ℕ)
observe_step at none starts = starts
observe_step at (some (name, pct)) starts =
    if seen name starts then starts else starts ++ (name, at) ∷ []

-- stepTimingTracker.finish: a step lasts until the next one starts, the last one until `finish`, when
-- that is known. Clocks do not run backwards here.
abbrev pub last_duration : ℕ → Option ℕ → ℕ
last_duration start none = 0
last_duration start (some t) = t - start

abbrev pub timing : String → ℕ → ℕ → StepTiming
timing name start dur = record { step = name; started_at = start; duration_sec = dur }

abbrev pub duration : ℕ → Option ℕ → List (String × ℕ) → ℕ
duration start finish [] = last_duration start finish
duration start finish ((name, next) ∷ rest) = next - start

unfoldable pub finish_timings : Option ℕ → List (String × ℕ) → List StepTiming
finish_timings finish [] = []
finish_timings finish ((name, start) ∷ rest) =
    timing name start (duration start finish rest) ∷ finish_timings finish rest

pub record Progress : Type 0 where
  pub step : String
  pub pct : ℕ
  pub ring : List (List ℕ)
  pub cap_n : ℕ

abbrev pub progress_ring_lines : ℕ
progress_ring_lines = 40

unfoldable pub new_progress_tracker : ℕ → Progress
new_progress_tracker cap_lines = record {
  step = "";
  pct = 0;
  ring = [];
  cap_n = if cap_lines == 0 then progress_ring_lines else cap_lines;
}

-- the ring with the line at its end; a full one drops its oldest line
unfoldable pub push_line : ℕ → List ℕ → List (List ℕ) → List (List ℕ)
push_line cap line ring =
    if leb cap (length ring) then drop 1 ring ++ line ∷ [] else ring ++ line ∷ []

abbrev pub with_pct : Progress → Option ℕ → Progress
with_pct p none = p
with_pct p (some v) = record p { pct = v }

abbrev pub with_marker : Patterns → Progress → Option (String × String) → Progress
with_marker re p none = p
with_marker re p (some (name, pct)) = with_pct (record p { step = name }) (re.parse_float pct)

-- progressTracker.observe
unfoldable pub observe_progress : Patterns → List ℕ → Progress → Progress
observe_progress re line p =
    with_marker re (record p { ring = push_line p.cap_n line p.ring }) (re.step_line line)

abbrev pub max_metrics : ℕ
max_metrics = 64

-- m[k] = v
unfoldable pub put_metric : String → ℕ → List (String × ℕ) → List (String × ℕ)
put_metric k v [] = (k, v) ∷ []
put_metric k v ((j, w) ∷ m) =
    let rest = put_metric k v m in if j =s= k then (k, v) ∷ m else (j, w) ∷ rest

abbrev pub put_parsed : String → Option ℕ → List (String × ℕ) → List (String × ℕ)
put_parsed k none m = m
put_parsed k (some v) m = put_metric k v m

-- the body of the loop: at the cap only known keys get through
unfoldable pub add_metric : Patterns → String × String → List (String × ℕ) → List (String × ℕ)
unfolding put_metric
add_metric re (k, text) m =
    if leb max_metrics (length m) && not (seen k m) then m else put_parsed k (re.parse_float text) m

-- metricTracker.observe
unfoldable pub observe_metrics :
    Patterns → List (String × String) → List (String × ℕ) → List (String × ℕ)
observe_metrics re [] m = m
observe_metrics re (pair ∷ pairs) m = observe_metrics re pairs (add_metric re pair m)

pub record Trackers : Type 0 where
  pub starts : List (String × ℕ)
  pub prog : Progress
  pub metrics : List (String × ℕ)

-- lineObserver.processLine, without its log line
unfoldable pub process_line : Patterns → ℕ → List ℕ → Trackers → Trackers
process_line re at line t = record {
  starts = observe_step at (re.step_line line) t.starts;
  prog = observe_progress re line t.prog;
  metrics = observe_metrics re (re.metric_lines line) t.metrics;
}

-- lineObserver
pub record Observer : Type 0 where
  pub trackers : Trackers
  pub buf : List ℕ
  pub remainder : List ℕ

-- one byte of the data: the line read so far, and the trackers
unfoldable pub feed : Patterns → ℕ → ℕ → List ℕ × Trackers → List ℕ × Trackers
feed re at c (line, t) =
    if c == newline then ([], process_line re at line t) else (line ++ c ∷ [], t)

-- the loop of Write over the complete lines of the data
unfoldable pub scan : Patterns → ℕ → List ℕ → List ℕ × Trackers → List ℕ × Trackers
scan re at [] st = st
scan re at (c ∷ cs) st = scan re at cs (feed re at c st)

abbrev pub written : Observer → List ℕ → List ℕ × Trackers → Observer
written o p (rest, t) = record { trackers = t; buf = o.buf ++ p; remainder = rest }

-- lineObserver.Write
unfoldable pub write : Patterns → ℕ → List ℕ → Observer → Observer
unfolding scan
write re at p o = written o p (scan re at (o.remainder ++ p) ([], o.trackers))

abbrev pub flush_rest : Patterns → ℕ → Observer → List ℕ → Observer
flush_rest re at o [] = o
flush_rest re at o (c ∷ cs) = record o {
  trackers = process_line re at (c ∷ cs) o.trackers;
  remainder = [];
}

-- lineObserver.flush
unfoldable pub flush : Patterns → ℕ → Observer → Observer
flush re at o = flush_rest re at o o.remainder

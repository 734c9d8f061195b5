-- ===== src/Scanner/Loop.antt =====
-- The scan loop of the controller (backend/internal/scanner/loop.go) and the store methods that it
-- calls: one job for each new episode of a series that is enabled and not paused.
use Prim.Native.Char.{code}
use Prim.Native.String.{String}
use encode_system.Prelude.{
  ℕ, zero, suc, ◌+◌, List, [], ◌∷◌, ◌++◌, Bool, true, false, not, ◌&&◌, ◌||◌, Option, none, some,
  ◌==◌, ltb, ◌=s=◌, if◌then◌else◌,
}
use encode_system.Prelude.Int.{ℤ, pos, negsuc}
use encode_system.Table.{select_one, count_where}
use encode_system.Model.{Job, JobStatus, Flow, Series, pending, cancelled}
use encode_system.Jobs.{Store, get_flow, create_job}
use encode_system.Scanner.{Candidate, Share, scan}
use encode_system.Scanner.Bucket.{S3Object, scan_s3}

abbrev pub is_cancelled : JobStatus → Bool
is_cancelled cancelled = true
is_cancelled _ = false

-- episode_dir = ? AND status != 'cancelled'
unfoldable pub covers : String → Job → Bool
covers dir j = j.episode_dir =s= dir && not (is_cancelled j.status)

unfoldable pub job_exists_for_episode : String → Store → Bool
unfolding covers
job_exists_for_episode dir s = ltb 0 (count_where (covers dir) s.jobs)

unfoldable pub series_by_name : String → Store → Option Series
series_by_name name s = select_one (λ sr. sr.name =s= name) s.series

abbrev pub new_series : String → Series
new_series name = record {
  name = name;
  flow_id = 0;
  tag = "";
  enabled = true;
  notify = true;
  paused = false;
  node_group = "";
  webhook_url = "";
}

abbrev pub or_insert : String → Store → Option Series → Store
or_insert name s none = record s { series = s.series ++ new_series name ∷ [] }
or_insert name s (some sr) = s

-- INSERT OR IGNORE: `name` is unique
unfoldable pub insert_series : String → Store → Store
unfolding series_by_name
insert_series name s = or_insert name s (series_by_name name s)

unfoldable pub upsert_series_by_name : String → Store → Store × Option Series
unfolding insert_series series_by_name
upsert_series_by_name name s = let t = insert_series name s in (t, series_by_name name t)

unfoldable pub default_flow : Store → Option Flow
default_flow s = select_one (λ f. f.is_default) s.flows

unfoldable pub flow_by_name : String → Store → Option Flow
flow_by_name name s = select_one (λ f. f.name =s= name) s.flows

abbrev pub or_else : {A : Type 0} → Option A → Option A → Option A
or_else (some a) o = some a
or_else none o = o

unfoldable pub resolve_series_flow : Series → String → Store → Option Flow
unfolding get_flow default_flow flow_by_name
resolve_series_flow sr default_name s =
    or_else (if ltb 0 sr.flow_id then get_flow sr.flow_id s else none)
      (or_else (default_flow s) (flow_by_name default_name s))

-- `/` and `\`
abbrev is_separator : ℕ → Bool
is_separator c = c == 47 || c == 92

unfoldable pub trim_separators : String → String
trim_separators String.[] = ""
trim_separators (String.◌∷◌ c s) =
    let r = trim_separators s in if r =s= "" && is_separator (code c) then "" else String.◌∷◌ c r

unfoldable pub last_part : String → String → String
last_part found String.[] = found
last_part found (String.◌∷◌ c s) = last_part (if is_separator (code c) then s else found) s

-- EpisodeNumber, with the regular expression a parameter: its first group, if it matches
unfoldable pub episode_number : (String → Option String) → String → String
unfolding trim_separators last_part
episode_number episode_re dir = elim (episode_re dir) [
  | some number ↦ number
  | none ↦ last_part (trim_separators dir) (trim_separators dir)
]

-- A job as a caller of CreateJob makes it, the other fields zero.
abbrev pub requested_job : String → String → String → String → String → ℕ → Job
requested_job series episode episode_dir script_type script_file flow_id = record {
  id = 0;
  series = series;
  episode = episode;
  episode_dir = episode_dir;
  script_type = script_type;
  script_file = script_file;
  flow_id = flow_id;
  status = pending;
  node_id = 0;
  step = "";
  progress = 0;
  exit_code = pos 0;
  error = "";
  log_tail = [];
  outputs = [];
  created_at = 0;
  started_at = none;
  finished_at = none;
  full_log = [];
  step_timings = [];
  metrics = [];
  priority = pos 0;
  retry_count = 0;
  next_retry_at = none;
  last_failed_node_id = 0;
}

pub record Cycle : Type 0 where
  pub now : ℕ
  pub default_flow_name : String
  pub episode_re : String → Option String

unfoldable pub candidate_job : Cycle → Candidate → Flow → Job
unfolding episode_number
candidate_job cy c fl =
    requested_job c.series (episode_number cy.episode_re c.episode_dir) c.episode_dir c.script_type
      c.script_file fl.id

abbrev pub create_with : Cycle → Candidate → Store → Option Flow → Store
create_with cy c s none = s
create_with cy c s (some fl) = (create_job cy.now (candidate_job cy c fl) s).0

-- What is done once the series is known.
unfoldable pub create_for : Cycle → Candidate → Store → Option Series → Store
unfolding job_exists_for_episode resolve_series_flow candidate_job create_job
create_for cy c s none = s
create_for cy c s (some sr) =
    if not sr.enabled || sr.paused
    then s
    else if job_exists_for_episode c.episode_dir s
    then s
    else create_with cy c s (resolve_series_flow sr cy.default_flow_name s)

unfoldable pub scan_candidate : Cycle → Candidate → Store → Store
unfolding upsert_series_by_name create_for
scan_candidate cy c s = let (t, sr) = upsert_series_by_name c.series s in create_for cy c t sr

unfoldable pub scan_candidates : Cycle → List Candidate → Store → Store
unfolding scan_candidate
scan_candidates cy [] s = s
scan_candidates cy (c ∷ cs) s = scan_candidates cy cs (scan_candidate cy c s)

-- Where one cycle reads from; the object store is its List of a bucket, `none` an error.
pub record Target : Type 0 where
  pub root : String
  pub s3_bucket : String
  pub s3_store : Option (String → Option (List S3Object))

-- the mounted shares, and what the scan of a bucket reads besides its objects
pub record Sources : Type 0 where
  pub open_root : String → Share
  pub to_lower : String → String
  pub clock : ℕ

abbrev pub stable_for : ℕ
stable_for = 120

-- `target.S3Bucket != "" && target.S3Store != nil`
abbrev pub chosen_bucket : Target → Option (Option (List S3Object))
chosen_bucket target = elim target.s3_store [
  | none ↦ none
  | some list ↦ if target.s3_bucket =s= "" then none else some (list target.s3_bucket)
]

abbrev pub mounted_candidates : Sources → String → Option (List Candidate)
mounted_candidates src root =
    if root =s= ""
    then none
    else elim (scan (src.open_root root) stable_for) [ none ↦ none | some found ↦ some found.0 ]

-- The candidates of the cycle: `none` where the source returns without any.
unfoldable pub target_candidates : Sources → Target → Option (List Candidate)
unfolding scan scan_s3
target_candidates src target = elim (chosen_bucket target) [
  | some none ↦ none
  | some (some objs) ↦ some (scan_s3 src.to_lower src.clock stable_for objs)
  | none ↦ mounted_candidates src target.root
]

unfoldable pub scan_once : Cycle → Sources → Target → Store → Store
unfolding target_candidates scan_candidates
scan_once cy src target s = elim (target_candidates src target) [
  | none ↦ s
  | some cands ↦ scan_candidates cy cands s
]

-- What the configuration says in one round of RunLoop; the interval is in seconds.
pub record Live : Type 0 where
  pub target : Target
  pub interval : ℤ
  pub cycle : Cycle
  pub sources : Sources

-- What the select wakes on.
pub data Wake : Type 0 where
  done tick trigger : Wake

-- `if interval <= 0 { interval = 30 * time.Second }`
abbrev pub usable_interval : ℤ → ℕ
usable_interval (pos zero) = 30
usable_interval (pos (suc n)) = suc n
usable_interval (negsuc n) = 30

-- the running ticker's interval, if there is one, and the number of tickers made
pub record Ticker : Type 0 where
  pub cur_interval : Option ℕ
  pub made : ℕ

-- `if tick == nil || interval != curInterval`
unfoldable pub retime : ℕ → Ticker → Ticker
retime interval t =
    let fresh : Ticker = record { cur_interval = some interval; made = t.made + 1 } in
    elim t.cur_interval [ none ↦ fresh | some cur ↦ if interval == cur then t else fresh ]

-- RunLoop, on the rounds' configurations and what each wakes on.
unfoldable pub run_loop : List (Live × Wake) → Ticker → Store → Ticker × Store
unfolding retime scan_once
run_loop [] t s = (t, s)
run_loop ((live, done) ∷ rounds) t s = (retime (usable_interval live.interval) t, s)
run_loop ((live, _) ∷ rounds) t s =
    run_loop rounds (retime (usable_interval live.interval) t)
      (scan_once live.cycle live.sources live.target s)

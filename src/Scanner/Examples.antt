-- ===== src/Scanner/Examples.antt =====
-- A share with one series, and buckets.
use Prim.Native.String.{String}
use mathlib.Core.List.{Memᴰ}
use mathlib.Core.Path.{subst}
use encode_system.Prelude.{
  ℕ, ◌≤◌, ◌≡◌, ◌⊎◌, inl, inr, refl, sym, arith, List, [], ◌∷◌, true, false, none, some, ◌=s=◌,
  if◌then◌else◌,
}
use encode_system.Samples.{store_of}
use encode_system.Table.{select_one, count_where}
use encode_system.Table.Counts.{Memᴰ-uncons}
use encode_system.Scanner.{
  Entry, Share, Candidate, nothing_picked, path_ext, has_prefix, pick_files, scan,
}
use encode_system.Scanner.Bucket.{S3Object, S3Entry, is_uploading, inspect_s3_episode, scan_s3}
use encode_system.Scanner.Gate.{Raw, inspect_s3-stable}
use encode_system.Scanner.Loop.{Cycle, covers, scan_candidates}
use encode_system.Scanner.Choice.{rank, Tidy, IsScript, pick_files-rank}
use encode_system.Scanner.Once.{count-scan_candidates}
use encode_system.Scanner.Settled.{at_time, scan_candidates_twice}

abbrev file : String → Entry
file name = record { name = name; is_dir = false }

abbrev dir : String → Entry
dir name = record { name = name; is_dir = true }

abbrev listing : List Entry
listing = file "1080.avs" ∷ file "2160.vpy" ∷ file "ep.m2ts" ∷ file "old.mkv" ∷ []

abbrev share : Share
share = record {
  read_dir = λ d.
      if d =s= "."
      then some (dir "Show" ∷ [])
      else if d =s= "Show"
      then some (dir "Ep 02" ∷ dir "Ep 01" ∷ dir "Ep 03" ∷ [])
      else if d =s= "Show/Ep 01"
      then some listing
      else if d =s= "Show/Ep 02"
      then some (file "ep.mkv" ∷ [])
      else none;
  mod_time = λ p. if p =s= "Show/Ep 01/ep.m2ts" then some 100 else none;
  now = 1000;
  to_lower = λ s. s;
}

abbrev candidate_one : Candidate
candidate_one = record {
  series = "Show";
  episode_dir = "Show/Ep 01";
  script_type = "vpy";
  script_file = "2160.vpy";
  source_file = "ep.m2ts";
}

-- one episode is ready, one has no script, one cannot be read
scan_test : scan share 120 ≡ some (candidate_one ∷ [], 1)
unfolding scan has_prefix
scan_test = refl

abbrev object : String → ℕ → S3Object
object key time = record { key = key; last_modified = some time }

-- The same files in a bucket, the source written 10 s ago: an mkv that comes after it in the listing,
-- and is old, hides that. Without the mkv the episode waits.
bucket_test :
    scan_s3
      (λ s. s)
      1000
      120
      (object "Show/Ep 01/2160.vpy" 100
        ∷ object "Show/Ep 01/ep.m2ts" 990
        ∷ object "Show/Ep 01/old.mkv" 100
        ∷ [])
    ≡ candidate_one ∷ []
unfolding scan_s3 has_prefix
bucket_test = refl

bucket_waits_test :
    scan_s3
      (λ s. s)
      1000
      120
      (object "Show/Ep 01/2160.vpy" 100 ∷ object "Show/Ep 01/ep.m2ts" 990 ∷ [])
    ≡ []
unfolding scan_s3 has_prefix
bucket_waits_test = refl

abbrev cycle : Cycle
cycle = record { now = 500; default_flow_name = "encode"; episode_re = λ s. none }

one_job_test :
    count_where
      (covers "Show/Ep 01")
      (scan_candidates cycle (candidate_one ∷ candidate_one ∷ []) (store_of [])).jobs
    ≡ 1
unfolding scan_candidates count_where covers select_one
one_job_test = refl

count-scan_candidates_example :
    (count_where
        (covers "Show/Ep 01")
        (scan_candidates cycle (candidate_one ∷ candidate_one ∷ []) (store_of [])).jobs
      ≡ count_where (covers "Show/Ep 01") (store_of []).jobs)
    ⊎ ((count_where (covers "Show/Ep 01") (store_of []).jobs ≡ 0)
        × (count_where
              (covers "Show/Ep 01")
              (scan_candidates cycle (candidate_one ∷ candidate_one ∷ []) (store_of [])).jobs
            ≡ 1))
count-scan_candidates_example =
    count-scan_candidates cycle (candidate_one ∷ candidate_one ∷ []) (store_of []) "Show/Ep 01"

scan_candidates_twice_example :
    scan_candidates
      (at_time 600 cycle)
      (candidate_one ∷ [])
      (scan_candidates cycle (candidate_one ∷ []) (store_of []))
    ≡ scan_candidates cycle (candidate_one ∷ []) (store_of [])
scan_candidates_twice_example = scan_candidates_twice cycle 600 (candidate_one ∷ []) (store_of [])

abbrev tidy_entries : List Entry
tidy_entries = file "1080.avs" ∷ file "2160.vpy" ∷ []

entries-Tidy : (e : Entry) → Memᴰ e tidy_entries → Tidy e.name
unfolding has_prefix rank
entries-Tidy e m = elim (Memᴰ-uncons m) [
  | inl q ↦ subst (λ z. Tidy z.name) (sym q) (λ h. absurd (ground (arith, h)))
  | inr t ↦ elim (Memᴰ-uncons t) [
    | inl q ↦ subst (λ z. Tidy z.name) (sym q) (λ h. omega arith)
    | inr n ↦ elim n [ ]
  ]
]

pick_files-rank_example :
    (((pick_files (λ s. s) tidy_entries nothing_picked).script ≡ "")
      ⊎ ((e : Entry) × Memᴰ e tidy_entries
          × IsScript (λ s. s) e
          × ((pick_files (λ s. s) tidy_entries nothing_picked).script ≡ e.name)))
    × ((e : Entry)
        → Memᴰ e tidy_entries
        → IsScript (λ s. s) e
        → rank e.name ≤ rank (pick_files (λ s. s) tidy_entries nothing_picked).script)
pick_files-rank_example = pick_files-rank (λ s. s) tidy_entries entries-Tidy

abbrev folder : List S3Entry
folder =
    record { name = "2160.vpy"; modified = some 100 }
    ∷ record { name = "ep.m2ts"; modified = some 100 }
    ∷ []

folder-Raw : Raw (λ s. s) folder
unfolding path_ext
folder-Raw e m = elim (Memᴰ-uncons m) [
  | inl q ↦ subst (λ z. (path_ext z.name =s= ".mkv") ≡ false) (sym q) refl
  | inr t ↦ elim (Memᴰ-uncons t) [
    | inl q ↦ subst (λ z. (path_ext z.name =s= ".mkv") ≡ false) (sym q) refl
    | inr n ↦ elim n [ ]
  ]
]

folder_ready : inspect_s3_episode (λ s. s) 1000 120 "Show/Ep 01" folder ≡ some candidate_one
unfolding inspect_s3_episode has_prefix
folder_ready = refl

inspect_s3-stable_example :
    (e : S3Entry) × Memᴰ e folder
    × (e.name ≡ candidate_one.source_file)
    × (is_uploading 1000 120 e.modified ≡ false)
inspect_s3-stable_example =
    inspect_s3-stable (λ s. s) folder 1000 120 "Show/Ep 01" candidate_one folder-Raw folder_ready

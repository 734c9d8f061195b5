-- ===== src/Scanner.antt =====
-- The scan of the scripts share (backend/internal/scanner/scanner.go): from directory listings to the
-- episodes that are ready for a job. The file system is a parameter.
pub mod Bucket
pub mod Loop
pub mod Choice
pub mod Once
pub mod Settled
pub mod Manual
pub mod Gate
mod Examples
use Prim.Native.Char.{code}
use Prim.Native.String.{String, compare, ◌++◌ as ◌++ˢ◌}
use text.Mathlib.Text.{starts_with, is_lt}
use encode_system.Prelude.{
  ℕ, suc, ◌-◌, ◌+◌, List, [], ◌∷◌, ◌++◌, Bool, true, false, not, ◌&&◌, ◌||◌, Option, none, some,
  ◌==◌, ltb, ◌=s=◌, if◌then◌else◌,
}
use encode_system.Prelude.Results.{Result, ok, err}

pub record Candidate : Type 0 where
  pub series : String
  pub episode_dir : String
  pub script_type : String
  pub script_file : String
  pub source_file : String

-- fs.DirEntry
pub record Entry : Type 0 where
  pub name : String
  pub is_dir : Bool

-- What the scan asks of the file system, the clock and strings.ToLower; `none` is an I/O error.
-- ReadDir lists a directory in the order of the names.
pub record Share : Type 0 where
  pub read_dir : String → Option (List Entry)
  pub mod_time : String → Option ℕ
  pub now : ℕ
  pub to_lower : String → String

-- path.Ext: from the last dot of the last element on
unfoldable pub ext_from : String → String → String
ext_from found String.[] = found
ext_from found (String.◌∷◌ c s) =
    ext_from (if code c == 46 then String.◌∷◌ c s else if code c == 47 then "" else found) s

unfoldable pub path_ext : String → String
unfolding ext_from
path_ext s = ext_from "" s

-- path.Join of two names, as directory listings give them
unfoldable pub join : String → String → String
join dir name = dir ++ˢ "/" ++ˢ name

unfoldable pub trim_dot : String → String
trim_dot String.[] = ""
trim_dot (String.◌∷◌ c s) = if code c == 46 then s else String.◌∷◌ c s

unfoldable pub is_source_ext : String → Bool
is_source_ext ext = ext =s= ".m2ts" || ext =s= ".ts" || ext =s= ".mkv" || ext =s= ".mp4"

abbrev pub is_script_ext : String → Bool
is_script_ext ext = ext =s= ".avs" || ext =s= ".vpy"

-- strings.HasPrefix
unfoldable pub has_prefix : String → String → Bool
has_prefix s prefix = starts_with s prefix

-- The switch on the name of a filter script, given the one chosen so far.
unfoldable pub choose_script : String → String → String
choose_script script name =
    if has_prefix name "2160.vpy"
    then name
    else if has_prefix name "2160.avs" && not (has_prefix script "2160.vpy")
    then name
    else if has_prefix name "1080.vpy" && not (has_prefix script "2160")
    then name
    else if has_prefix name "1080.avs"
        && not (has_prefix script "2160")
        && not (has_prefix script "1080.vpy")
    then name
    else if script =s= ""
    then name
    else script

pub record Picked : Type 0 where
  pub source : String
  pub mkv_fallback : String
  pub script : String

abbrev pub nothing_picked : Picked
nothing_picked = record { source = ""; mkv_fallback = ""; script = "" }

-- `isSourceExt(ext) && ext != ".mkv" && source == ""`
unfoldable pub is_first_source : String → Picked → Bool
unfolding is_source_ext
is_first_source ext p = is_source_ext ext && not (ext =s= ".mkv") && p.source =s= ""

unfoldable pub is_first_mkv : String → Picked → Bool
is_first_mkv ext p = ext =s= ".mkv" && p.mkv_fallback =s= ""

unfoldable pub pick_source : String → String → Picked → Picked
unfolding is_first_source is_first_mkv
pick_source ext name p =
    if is_first_source ext p
    then record p { source = name }
    else if is_first_mkv ext p
    then record p { mkv_fallback = name }
    else p

unfoldable pub pick_script : String → String → Picked → Picked
unfolding choose_script
pick_script ext name p =
    if is_script_ext ext then record p { script = choose_script p.script name } else p

-- One round of the loop over the entries.
unfoldable pub pick_file : (String → String) → String → Picked → Picked
unfolding path_ext pick_source pick_script
pick_file to_lower name p =
    let ext = to_lower (path_ext name) in pick_script ext name (pick_source ext name p)

unfoldable pub pick_files : (String → String) → List Entry → Picked → Picked
unfolding pick_file
pick_files to_lower [] p = p
pick_files to_lower (e ∷ es) p =
    pick_files to_lower es (if e.is_dir then p else pick_file to_lower e.name p)

-- `if source == "" { source = mkvFallback }`
abbrev pub source_of : Picked → String
source_of p = if p.source =s= "" then p.mkv_fallback else p.source

-- The stability gate: `none` is an error, `some false` a source that is too fresh.
unfoldable pub is_stable : Share → ℕ → String → Option Bool
is_stable share age path =
    if ltb 0 age
    then elim (share.mod_time path) [ none ↦ none | some m ↦ some (not (ltb (share.now - m) age)) ]
    else some true

unfoldable pub candidate : String → String → Picked → Candidate
unfolding path_ext join trim_dot
candidate series ep p = record {
  series = series;
  episode_dir = join series ep;
  script_type = trim_dot (path_ext p.script);
  script_file = p.script;
  source_file = source_of p;
}

-- `none` is an error, `some none` a folder that is not ready.
unfoldable pub inspect_picked : Share → ℕ → String → String → Picked → Option (Option Candidate)
unfolding candidate is_stable join
inspect_picked share age series ep p =
    if source_of p =s= "" || p.script =s= ""
    then some none
    else elim (is_stable share age (join (join series ep) (source_of p))) [
      | none ↦ none
      | some stable ↦ some (if stable then some (candidate series ep p) else none)
    ]

unfoldable pub inspect_episode : Share → ℕ → String → String → Option (Option Candidate)
unfolding inspect_picked pick_files join
inspect_episode share age series ep = elim (share.read_dir (join series ep)) [
  | none ↦ none
  | some entries ↦
      inspect_picked share age series ep (pick_files share.to_lower entries nothing_picked)
]

-- sort.Strings and sort.Slice, by a text of the items
module _ {A : Type 0} (key : A → String) where
  unfoldable pub insert_sorted : A → List A → List A
  insert_sorted x [] = x ∷ []
  insert_sorted x (y ∷ ys) =
      let rest = insert_sorted x ys in
      if is_lt (compare (key y) (key x)) then y ∷ rest else x ∷ y ∷ ys

  unfoldable pub sort_by : List A → List A
  unfolding insert_sorted
  sort_by [] = []
  sort_by (x ∷ xs) = insert_sorted x (sort_by xs)

abbrev dir_names : List Entry → List String
dir_names [] = []
dir_names (e ∷ es) = let rest = dir_names es in if e.is_dir then e.name ∷ rest else rest

unfoldable pub sorted_dirs : Share → String → Option (List String)
unfolding sort_by
sorted_dirs share dir = elim (share.read_dir dir) [
  | none ↦ none
  | some entries ↦ some (sort_by (λ s. s) (dir_names entries))
]

-- the candidates and the number of skipped directories
abbrev pub add_found : Option (Option Candidate) → List Candidate × ℕ → List Candidate × ℕ
add_found none (out, skipped) = (out, suc skipped)
add_found (some none) r = r
add_found (some (some c)) (out, skipped) = (c ∷ out, skipped)

unfoldable pub scan_episodes : Share → ℕ → String → List String → List Candidate × ℕ
unfolding inspect_episode
scan_episodes share age series [] = ([], 0)
scan_episodes share age series (ep ∷ eps) =
    add_found (inspect_episode share age series ep) (scan_episodes share age series eps)

abbrev add_series : Option (List Candidate × ℕ) → List Candidate × ℕ → List Candidate × ℕ
add_series none (out, skipped) = (out, suc skipped)
add_series (some (found, n)) (out, skipped) = (found ++ out, n + skipped)

unfoldable pub scan_all_series : Share → ℕ → List String → List Candidate × ℕ
unfolding sorted_dirs scan_episodes
scan_all_series share age [] = ([], 0)
scan_all_series share age (series ∷ rest) =
    add_series
      (elim (sorted_dirs share series) [
        | none ↦ none
        | some eps ↦ some (scan_episodes share age series eps)
      ])
      (scan_all_series share age rest)

unfoldable pub scan : Share → ℕ → Option (List Candidate × ℕ)
unfolding sorted_dirs scan_all_series sort_by
scan share age = elim (sorted_dirs share ".") [
  | none ↦ none
  | some dirs ↦
      let (out, skipped) = scan_all_series share age dirs in
      some (sort_by (λ c. c.episode_dir) out, skipped)
]

-- ===== src/Scanner/Bucket.antt =====
-- The scan of an object store's bucket (backend/internal/scanner/s3scan.go).
use Prim.Native.Char.{code}
use Prim.Native.String.{String}
use encode_system.Prelude.{
  ℕ, suc, ◌-◌, List, [], ◌∷◌, ◌++◌, Bool, false, not, ◌&&◌, ◌||◌, Option, none, some, ◌==◌, ltb,
  ◌=s=◌, if◌then◌else◌,
}
use encode_system.Scanner.{
  Candidate, Picked, nothing_picked, path_ext, is_first_source, is_first_mkv, pick_source,
  pick_script, source_of, sort_by,
}

-- model.S3Object: a zero LastModified is `none`
pub record S3Object : Type 0 where
  pub key : String
  pub last_modified : Option ℕ

pub record S3Entry : Type 0 where
  pub name : String
  pub modified : Option ℕ

-- The text before the last slash and the text after it.
unfoldable pub split_last : String → Option (String × String)
split_last String.[] = none
split_last (String.◌∷◌ c s) = elim (split_last s) [
  | some parts ↦ some (String.◌∷◌ c parts.0, parts.1)
  | none ↦ if code c == 47 then some ("", s) else none
]

-- path.Split with the slash trimmed
unfoldable pub split_key : String → String × String
unfolding split_last
split_key s = elim (split_last s) [ none ↦ ("", s) | some parts ↦ parts ]

unfoldable pub count_slashes : String → ℕ
count_slashes String.[] = 0
count_slashes (String.◌∷◌ c s) = let n = count_slashes s in if code c == 47 then suc n else n

-- `strings.SplitN(s, "/", 2)[0]`
unfoldable pub first_part : String → String
first_part String.[] = ""
first_part (String.◌∷◌ c s) = let r = first_part s in if code c == 47 then "" else String.◌∷◌ c r

-- strings.HasSuffix
unfoldable pub ends_with : String → String → Bool
ends_with String.[] suffix = "" =s= suffix
ends_with (String.◌∷◌ c s) suffix = String.◌∷◌ c s =s= suffix || ends_with s suffix

-- the map byDir
abbrev pub Groups : Type 0
Groups = List (String × List S3Entry)

-- `byDir[key] = append(byDir[key], e)`
unfoldable pub append_entry : String → S3Entry → Groups → Groups
append_entry key e [] = (key, e ∷ []) ∷ []
append_entry key e ((k, es) ∷ rest) =
    let later = append_entry key e rest in
    if k =s= key then (k, es ++ e ∷ []) ∷ rest else (k, es) ∷ later

unfoldable pub add_object : S3Object → Groups → Groups
unfolding append_entry split_key count_slashes
add_object o groups =
    let (dir, name) = split_key o.key in
    if name =s= "" || not (count_slashes dir == 1)
    then groups
    else append_entry dir (record { name = name; modified = o.last_modified }) groups

unfoldable pub group_objects : List S3Object → Groups → Groups
unfolding add_object
group_objects [] groups = groups
group_objects (o ∷ objs) groups = group_objects objs (add_object o groups)

pub record S3Picked : Type 0 where
  pub picked : Picked
  pub source_mtime : Option ℕ

-- One round of the loop over the entries: the time is set with the source, and with the fallback.
unfoldable pub pick_object : (String → String) → S3Entry → S3Picked → S3Picked
unfolding path_ext pick_source pick_script is_first_source is_first_mkv
pick_object to_lower e p =
    let ext = to_lower (path_ext e.name) in
    record {
      picked = pick_script ext e.name (pick_source ext e.name p.picked);
      source_mtime =
          if is_first_source ext p.picked || is_first_mkv ext p.picked
          then e.modified
          else p.source_mtime;
    }

unfoldable pub pick_objects : (String → String) → List S3Entry → S3Picked → S3Picked
unfolding pick_object
pick_objects to_lower [] p = p
pick_objects to_lower (e ∷ es) p = pick_objects to_lower es (pick_object to_lower e p)

-- `minStableAge > 0 && !sourceMtime.IsZero() && now.Sub(sourceMtime) < minStableAge`
unfoldable pub is_uploading : ℕ → ℕ → Option ℕ → Bool
is_uploading now age none = false
is_uploading now age (some m) = ltb 0 age && ltb (now - m) age

unfoldable pub s3_candidate : (String → String) → String → Picked → Candidate
unfolding first_part ends_with
s3_candidate to_lower dir p = record {
  series = first_part dir;
  episode_dir = dir;
  script_type = if ends_with (to_lower p.script) ".vpy" then "vpy" else "avs";
  script_file = p.script;
  source_file = source_of p;
}

unfoldable pub inspect_s3_episode :
    (String → String) → ℕ → ℕ → String → List S3Entry → Option Candidate
unfolding pick_objects is_uploading s3_candidate
inspect_s3_episode to_lower now age dir entries =
    let p =
      pick_objects to_lower entries (record { picked = nothing_picked; source_mtime = none }) in
    if source_of p.picked =s= "" || p.picked.script =s= ""
    then none
    else if is_uploading now age p.source_mtime
    then none
    else some (s3_candidate to_lower dir p.picked)

abbrev add_ready : Option Candidate → List Candidate → List Candidate
add_ready none out = out
add_ready (some c) out = c ∷ out

unfoldable pub inspect_groups : (String → String) → ℕ → ℕ → Groups → List Candidate
unfolding inspect_s3_episode
inspect_groups to_lower now age [] = []
inspect_groups to_lower now age ((dir, entries) ∷ rest) =
    add_ready (inspect_s3_episode to_lower now age dir entries)
      (inspect_groups to_lower now age rest)

-- ScanS3, of the objects that List gives
unfoldable pub scan_s3 : (String → String) → ℕ → ℕ → List S3Object → List Candidate
unfolding inspect_groups group_objects sort_by
scan_s3 to_lower now age objs =
    inspect_groups to_lower now age (sort_by (λ g. g.0) (group_objects objs []))

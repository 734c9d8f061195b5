-- ===== src/Package.antt =====
-- The bin package: the check of an upload (validateBinZip of backend/internal/api/handlers_publish.go) and
-- its extraction on a node (backend/internal/agent/extract.go). A name is the list of its bytes, a clean path
-- the list of its parts, and the node's disk a file tree (FileSystem.antt). What is in the archive can be read;
-- filepath.IsAbs and the paths that are in use are parameters.
pub mod Targets
pub mod Kept
pub mod Contained
pub mod Written
pub mod Accepted
mod Examples
use encode_system.Prelude.{
  ℕ, ◌+◌, ◌-◌, ◌*◌, ◌/◌, ◌%◌, ◌^◌, List, [], ◌∷◌, ◌++◌, Bool, true, false, not, ◌&&◌, ◌||◌, ◌==◌,
  ltb, if◌then◌else◌, length,
}
use encode_system.Prelude.Results.{Result, ok, err, ◌>>◌, guard}
use encode_system.FileSystem.{
  FilePath, FileTree, FileError, Changed, file, eq_text, is_below, remove_file, put, mkdir_all,
  mkdir_from, open_file, rename,
}

-- an entry with its fs.FileMode
pub record ZipEntry : Type 0 where
  pub name : List ℕ
  pub mode : ℕ
  pub content : List ℕ

pub data PackageError : Type 0 where
  empty_name absolute_path drive_letter unc_path parent_segment escapes symlink too_large :
      PackageError
  file_error : FileError → PackageError
  empty_zip too_many_entries : PackageError

-- / and \
abbrev pub slash : ℕ
slash = 47

-- .tmp
abbrev pub tmp_suffix : List ℕ
tmp_suffix = 46 ∷ 116 ∷ 109 ∷ 112 ∷ []

abbrev pub backslash_byte : ℕ
backslash_byte = 92

-- strings.ReplaceAll(name, `\`, "/")
unfoldable pub to_slashes : List ℕ → List ℕ
to_slashes [] = []
to_slashes (c ∷ s) = (if c == backslash_byte then slash else c) ∷ to_slashes s

-- strings.Split(name, "/")
abbrev pub push_byte : ℕ → List (List ℕ) → List (List ℕ)
push_byte c [] = (c ∷ []) ∷ []
push_byte c (seg ∷ segs) = (c ∷ seg) ∷ segs

unfoldable pub split_slashes : List ℕ → List (List ℕ)
split_slashes [] = [] ∷ []
split_slashes (c ∷ s) =
    let rest = split_slashes s in if c == slash then [] ∷ rest else push_byte c rest

abbrev pub is_parent : List ℕ → Bool
is_parent (c ∷ d ∷ []) = c == 46 && d == 46
is_parent _ = false

-- an empty part and . leave a path as it is
abbrev pub is_nothing : List ℕ → Bool
is_nothing [] = true
is_nothing (c ∷ []) = c == 46
is_nothing _ = false

unfoldable pub has_parent : List (List ℕ) → Bool
has_parent [] = false
has_parent (seg ∷ segs) = is_parent seg || has_parent segs

abbrev pub is_drive : List ℕ → Bool
is_drive (c ∷ d ∷ s) = d == 58
is_drive _ = false

abbrev pub is_unc : List ℕ → Bool
is_unc (c ∷ d ∷ s) = (c == 92 && d == 92) || (c == 47 && d == 47)
is_unc _ = false

abbrev pub first_is : (ℕ → Bool) → List ℕ → Bool
first_is p [] = false
first_is p (c ∷ s) = p c

abbrev pub is_empty : List ℕ → Bool
is_empty [] = true
is_empty (c ∷ s) = false

unfoldable pub safe_rel_path : (List ℕ → Bool) → List ℕ → Result PackageError (Unit {0})
safe_rel_path is_abs name = do
  guard (not (is_empty name)) empty_name
  guard (not (is_abs name || first_is (λ c. c == slash || c == backslash_byte) name)) absolute_path
  guard (not (is_drive name)) drive_letter
  guard (not (is_unc name)) unc_path
  guard (not (has_parent (split_slashes name))) parent_segment

-- filepath.Join(destDir, name): the parts of the name behind those of the directory, made clean
abbrev pub drop_last : List (List ℕ) → List (List ℕ)
drop_last [] = []
drop_last (x ∷ []) = []
drop_last (x ∷ y ∷ xs) = x ∷ drop_last (y ∷ xs)

unfoldable pub clean_from : List (List ℕ) → List (List ℕ) → List (List ℕ)
clean_from dir [] = dir
clean_from dir (seg ∷ segs) =
    let kept = clean_from dir segs in
    let up = clean_from (drop_last dir) segs in
    let down = clean_from (dir ++ seg ∷ []) segs in
    if is_nothing seg then kept else if is_parent seg then up else down

-- os.ModeDir and os.ModeSymlink
abbrev pub is_dir_mode : ℕ → Bool
is_dir_mode mode = mode / 2147483648 % 2 == 1

abbrev pub is_symlink_mode : ℕ → Bool
is_symlink_mode mode = mode / 134217728 % 2 == 1

-- the node's files, and `written`, the bytes that were extracted
pub record Disk : Type 0 where
  pub files : FileTree
  pub written : ℕ

-- the disk after a part of the extraction, also when it failed
abbrev pub Outcome : Type 0
Outcome = Disk × Result PackageError (Unit {0})

abbrev pub and_then : Outcome → (Disk → Outcome) → Outcome
and_then (d, ok u) next = next d
and_then (d, err e) next = (d, err e)

abbrev pub on_files : Disk → Changed → Outcome
on_files d (fs, ok u) = (record d { files = fs }, ok u)
on_files d (fs, err e) = (record d { files = fs }, err (file_error e))

-- target + ".tmp"
unfoldable pub tmp_of : FilePath → FilePath
tmp_of [] = tmp_suffix ∷ []
tmp_of (x ∷ []) = (x ++ tmp_suffix) ∷ []
tmp_of (x ∷ y ∷ target) = x ∷ tmp_of (y ∷ target)

-- os.Remove(tmp)
abbrev pub without : FilePath → Outcome → Outcome
without tmp (d, r) = (record d { files = remove_file tmp d.files }, r)

-- the swap; a temporary file that cannot be renamed is removed
abbrev pub or_remove : FilePath → Outcome → Outcome
or_remove tmp (d, ok u) = (d, ok u)
or_remove tmp (d, err e) = without tmp (d, err e)

module _ (max_bytes : ℕ) (is_abs : List ℕ → Bool) (locked : FilePath → Bool) where
  -- the copy to the open temporary file, and the swap
  abbrev pub copy_and_swap : FilePath → FilePath → List ℕ → Disk → Outcome
  copy_and_swap tmp target content d =
      if ltb (max_bytes - d.written) (length content)
      then without tmp (d, err too_large)
      else (let full : Disk = record {
        files = put tmp (file content) d.files;
        written = d.written + length content;
      } in
          or_remove tmp (on_files full (rename locked tmp target full.files)))

  unfoldable pub write_file : FilePath → List ℕ → Disk → Outcome
  write_file target content d =
      and_then (on_files d (open_file locked (tmp_of target) d.files))
        (copy_and_swap (tmp_of target) target content)

  abbrev pub place : FilePath → FilePath → ZipEntry → Disk → Outcome
  place dir target e d =
      if not (is_below dir target)
      then (d, err escapes)
      else if is_dir_mode e.mode
      then on_files d (mkdir_all target d.files)
      else if is_symlink_mode e.mode
      then (d, err symlink)
      else and_then (on_files d (mkdir_all (drop_last target) d.files))
          (write_file target e.content)

  -- one turn of the loop
  unfoldable pub extract_entry : FilePath → ZipEntry → Disk → Outcome
  extract_entry dir e d =
      and_then (d, safe_rel_path is_abs (to_slashes e.name))
        (place dir (clean_from dir (split_slashes (to_slashes e.name))) e)

  unfoldable pub extract_entries : FilePath → List ZipEntry → Disk → Outcome
  extract_entries dir [] d = (d, ok tt)
  extract_entries dir (e ∷ es) d = and_then (extract_entry dir e d) (extract_entries dir es)

  -- extractBinZip, of an archive that can be read
  unfoldable pub extract_bin_zip : FilePath → List ZipEntry → FileTree → Outcome
  extract_bin_zip dir es fs =
      and_then (on_files (record { files = fs; written = 0 }) (mkdir_all dir fs))
        (extract_entries dir es)

-- the test of validateBinZip: Mode()&0o170000 == 0o120000
abbrev pub has_link_bits : ℕ → Bool
has_link_bits mode = mode / 4096 % 16 == 10

unfoldable pub validate_entries : (List ℕ → Bool) → List ZipEntry → Result PackageError (Unit {0})
unfolding safe_rel_path
validate_entries is_abs [] = ok tt
validate_entries is_abs (e ∷ es) =
    guard (not (has_link_bits e.mode)) symlink
    >> (safe_rel_path is_abs (to_slashes e.name) >> validate_entries is_abs es)

unfoldable pub validate_bin_zip : (List ℕ → Bool) → List ZipEntry → Result PackageError (Unit {0})
unfolding validate_entries
validate_bin_zip is_abs es = do
  guard (not (length es == 0)) empty_zip
  guard (not (ltb 5000 (length es))) too_many_entries
  validate_entries is_abs es

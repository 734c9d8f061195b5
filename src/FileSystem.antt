-- ===== src/FileSystem.antt =====
-- The file system of a node, as backend/internal/agent/extract.go uses it through the package os: folders and
-- files under their paths, with os.MkdirAll, os.OpenFile, os.Rename and os.Remove. A path is the list of its
-- parts, a part the list of its bytes, and names differ when their bytes do. Of the errors, those are here that
-- the tree itself causes, and a file that is in use.
pub mod Laws
pub mod Effects
pub mod Success
use encode_system.Prelude.{
  ℕ, List, [], ◌∷◌, ◌++◌, Bool, true, false, ◌&&◌, ◌==◌, Option, none, some, if◌then◌else◌,
}
use encode_system.Prelude.Results.{Result, ok, err}

abbrev pub FilePath : Type 0
FilePath = List (List ℕ)

unfoldable pub eq_text : List ℕ → List ℕ → Bool
eq_text [] [] = true
eq_text (c ∷ s) (d ∷ t) = c == d && eq_text s t
eq_text _ _ = false

unfoldable pub eq_path : FilePath → FilePath → Bool
eq_path [] [] = true
eq_path (s ∷ p) (t ∷ q) = eq_text s t && eq_path p q
eq_path _ _ = false

-- the first path is the second one or an ancestor of it
unfoldable pub is_below : FilePath → FilePath → Bool
is_below [] target = true
is_below (d ∷ dir) [] = false
is_below (d ∷ dir) (x ∷ target) = eq_text d x && is_below dir target

pub data TreeNode : Type 0 where
  folder : TreeNode
  file : List ℕ → TreeNode

abbrev pub FileTree : Type 0
FileTree = List (FilePath × TreeNode)

unfoldable pub lookup : FilePath → FileTree → Option TreeNode
lookup p [] = none
lookup p ((q, n) ∷ fs) = let rest = lookup p fs in if eq_path q p then some n else rest

-- os.Remove of a file
unfoldable pub remove_file : FilePath → FileTree → FileTree
remove_file p [] = []
remove_file p ((q, n) ∷ fs) =
    let rest = remove_file p fs in if eq_path q p then rest else (q, n) ∷ rest

unfoldable pub put : FilePath → TreeNode → FileTree → FileTree
put p n fs = (p, n) ∷ remove_file p fs

pub data FileError : Type 0 where
  not_a_directory is_a_directory not_found in_use : FileError

-- the tree after an operation, also after one that failed
abbrev pub Changed : Type 0
Changed = FileTree × Result FileError (Unit {0})

abbrev pub mkdir_one : FilePath → FileTree → Option TreeNode → (FileTree → Changed) → Changed
mkdir_one p fs none next = next (put p folder fs)
mkdir_one p fs (some folder) next = next fs
mkdir_one p fs (some (file c)) next = (fs, err not_a_directory)

-- os.MkdirAll, from the root on
unfoldable pub mkdir_from : FilePath → List (List ℕ) → FileTree → Changed
mkdir_from base [] fs = (fs, ok tt)
mkdir_from base (seg ∷ segs) fs =
    mkdir_one (base ++ seg ∷ []) fs (lookup (base ++ seg ∷ []) fs)
      (mkdir_from (base ++ seg ∷ []) segs)

abbrev pub mkdir_all : FilePath → FileTree → Changed
mkdir_all p fs = mkdir_from [] p fs

abbrev pub open_at : FilePath → FileTree → Option TreeNode → Changed
open_at p fs none = (put p (file []) fs, ok tt)
open_at p fs (some (file c)) = (put p (file []) fs, ok tt)
open_at p fs (some folder) = (fs, err is_a_directory)

abbrev pub rename_at : FilePath → FilePath → FileTree → Option TreeNode → Option TreeNode → Changed
rename_at source target fs none there = (fs, err not_found)
rename_at source target fs (some n) none = (put target n (remove_file source fs), ok tt)
rename_at source target fs (some n) (some (file c)) = (put target n (remove_file source fs), ok tt)
rename_at source target fs (some n) (some folder) = (fs, err is_a_directory)

module _ (locked : FilePath → Bool) where
  -- os.OpenFile with O_CREATE and O_TRUNC, for a file whose folder is there
  unfoldable pub open_file : FilePath → FileTree → Changed
  open_file p fs = if locked p then (fs, err in_use) else open_at p fs (lookup p fs)

  -- os.Rename of a file
  unfoldable pub rename : FilePath → FilePath → FileTree → Changed
  rename source target fs =
      if locked target
      then (fs, err in_use)
      else rename_at source target fs (lookup source fs) (lookup target fs)

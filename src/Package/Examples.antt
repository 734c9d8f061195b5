-- ===== src/Package/Examples.antt =====
-- Packages of a folder with one tool, of entries that are in each other's way, and with a link.
use encode_system.Prelude.{
  ℕ, ◌+◌, ◌≤◌, ◌≡◌, ◌⊎◌, inl, inr, refl, arith, List, [], ◌∷◌, Bool, false, none, All,
}
use encode_system.Prelude.Results.{ok, err}
use encode_system.FileSystem.{
  FilePath, FileTree, eq_text, eq_path, is_below, file, not_a_directory, is_a_directory, lookup,
  remove_file, put, mkdir_from, open_file, rename,
}
use encode_system.FileSystem.Laws.{bytes_of}
use encode_system.FileSystem.Success.{free}
use encode_system.Package.{
  ZipEntry, symlink, file_error, Disk, to_slashes, split_slashes, has_parent, safe_rel_path,
  clean_from, tmp_of, write_file, extract_entry, extract_entries, extract_bin_zip, validate_bin_zip,
}
use encode_system.Package.Contained.{extract_bin_zip-Contained}
use encode_system.Package.Written.{Placed, Fit}
use encode_system.Package.Accepted.{size_of_all, Distinct, Stands, extract_bin_zip-validated}

abbrev never : List ℕ → Bool
never s = false

-- C:/bin as its parts
abbrev bin_dir : FilePath
bin_dir = (67 ∷ 58 ∷ []) ∷ (98 ∷ 105 ∷ 110 ∷ []) ∷ []

abbrev plain_file : List ℕ → List ℕ → ZipEntry
plain_file n c = record { name = n; mode = 493; content = c }

-- t/ and t\x
abbrev archive : List ZipEntry
archive =
    record { name = 116 ∷ 47 ∷ []; mode = 2147484141; content = [] }
    ∷ plain_file (116 ∷ 92 ∷ 120 ∷ []) (1 ∷ 2 ∷ [])
    ∷ []

-- the temporary file of the directory itself
abbrev bin_tmp : FilePath
bin_tmp = (67 ∷ 58 ∷ []) ∷ (98 ∷ 105 ∷ 110 ∷ 46 ∷ 116 ∷ 109 ∷ 112 ∷ []) ∷ []

-- one entry with the name .
abbrev dot : List ZipEntry
dot = plain_file (46 ∷ []) (1 ∷ []) ∷ []

-- a file stands there already
abbrev with_tmp : FileTree
with_tmp = (bin_tmp, file (7 ∷ [])) ∷ []

extract_bin_zip-Contained_example :
    let after = (extract_bin_zip 100 never free bin_dir dot with_tmp).0.files in
    ((lookup bin_tmp after ≡ lookup bin_tmp with_tmp)
      ⊎ ((bin_tmp ≡ tmp_of bin_dir) × (lookup bin_tmp after ≡ none)))
    × (bytes_of after ≤ bytes_of with_tmp + 100)
unfolding is_below eq_text
extract_bin_zip-Contained_example =
    extract_bin_zip-Contained 100 never free bin_tmp bin_dir dot with_tmp refl refl

-- it is gone, and the extraction has failed
dot_removes_test :
    (lookup bin_tmp (extract_bin_zip 100 never free bin_dir dot with_tmp).0.files ≡ none)
    × ((extract_bin_zip 100 never free bin_dir dot with_tmp).1 ≡ err (file_error is_a_directory))
unfolding extract_bin_zip extract_entries extract_entry write_file to_slashes split_slashes
    has_parent safe_rel_path clean_from tmp_of is_below eq_text eq_path lookup remove_file put
    mkdir_from open_file rename
dot_removes_test = (refl, refl)

dot_validates_test : validate_bin_zip never dot ≡ ok tt
unfolding validate_bin_zip to_slashes split_slashes has_parent
dot_validates_test = refl

-- a and a/b
abbrev clash : List ZipEntry
clash = plain_file (97 ∷ []) [] ∷ plain_file (97 ∷ 47 ∷ 98 ∷ []) [] ∷ []

clash_fails_test :
    (extract_bin_zip 100 never free bin_dir clash []).1 ≡ err (file_error not_a_directory)
unfolding extract_bin_zip extract_entries extract_entry write_file to_slashes split_slashes
    has_parent safe_rel_path clean_from tmp_of is_below eq_text eq_path lookup remove_file put
    mkdir_from open_file rename
clash_fails_test = refl

-- a.tmp and a: the first one is lost, and no error says so
abbrev lost : List ZipEntry
lost = plain_file (97 ∷ 46 ∷ 116 ∷ 109 ∷ 112 ∷ []) (1 ∷ []) ∷ plain_file (97 ∷ []) (2 ∷ []) ∷ []

abbrev lost_path : FilePath
lost_path = (67 ∷ 58 ∷ []) ∷ (98 ∷ 105 ∷ 110 ∷ []) ∷ (97 ∷ 46 ∷ 116 ∷ 109 ∷ 112 ∷ []) ∷ []

lost_test :
    ((extract_bin_zip 100 never free bin_dir lost []).1 ≡ ok tt)
    × (lookup lost_path (extract_bin_zip 100 never free bin_dir lost []).0.files ≡ none)
unfolding extract_bin_zip extract_entries extract_entry write_file to_slashes split_slashes
    has_parent safe_rel_path clean_from tmp_of is_below eq_text eq_path lookup remove_file put
    mkdir_from open_file rename
lost_test = (refl, refl)

-- the folder and the file of the archive
abbrev folder_path : FilePath
folder_path = (67 ∷ 58 ∷ []) ∷ (98 ∷ 105 ∷ 110 ∷ []) ∷ (116 ∷ []) ∷ []

abbrev file_path : FilePath
file_path = (67 ∷ 58 ∷ []) ∷ (98 ∷ 105 ∷ 110 ∷ []) ∷ (116 ∷ []) ∷ (120 ∷ []) ∷ []

abbrev tmp_path : FilePath
tmp_path =
    (67 ∷ 58 ∷ []) ∷ (98 ∷ 105 ∷ 110 ∷ []) ∷ (116 ∷ []) ∷ (120 ∷ 46 ∷ 116 ∷ 109 ∷ 112 ∷ []) ∷ []

abbrev ForFiles : FilePath → Type 0
ForFiles f = (f ≡ file_path) ⊎ (f ≡ tmp_path)

abbrev ForFolders : FilePath → Type 0
ForFolders g = (g ≡ bin_dir) ⊎ (g ≡ folder_path)

kept_apart : (f g : FilePath) → ForFiles f → ForFolders g → is_below f g ≡ false
unfolding is_below eq_text
kept_apart f g (inl a) (inl b) = rw (a, b) refl
kept_apart f g (inl a) (inr b) = rw (a, b) refl
kept_apart f g (inr a) (inl b) = rw (a, b) refl
kept_apart f g (inr a) (inr b) = rw (a, b) refl

archive-Placed : All (Placed ForFiles ForFolders bin_dir) archive
unfolding to_slashes split_slashes clean_from tmp_of
archive-Placed = (
  ((λ h. inr refl), (λ h. absurd (cc))),
  (((λ h. absurd (cc)), (λ h. (inl refl, inr refl, inr refl))), tt),
)

archive-Distinct : Distinct bin_dir archive
unfolding Distinct
archive-Distinct = ((λ h. absurd (cc)), ((λ h. tt), tt))

empty-Fit : Fit ForFiles ForFolders []
unfolding lookup
empty-Fit = ((λ f k. refl), λ g q k b. refl)

extract_bin_zip-validated_example :
    (t : Disk) × (extract_bin_zip 100 never free bin_dir archive [] ≡ (t, ok tt))
    × (t.written ≡ size_of_all archive)
    × All (Stands bin_dir t.files) archive
unfolding validate_bin_zip to_slashes split_slashes has_parent size_of_all
extract_bin_zip-validated_example =
    extract_bin_zip-validated ForFiles ForFolders kept_apart 100 never bin_dir archive [] refl
      (refl, (refl, tt)) (inl refl) archive-Placed archive-Distinct empty-Fit (omega arith)

-- a symbolic link, as fs.FileMode has it
abbrev link : List ZipEntry
link = record { name = 120 ∷ []; mode = 134218239; content = [] } ∷ []

link_validates_test : validate_bin_zip never link ≡ ok tt
unfolding validate_bin_zip to_slashes split_slashes has_parent
link_validates_test = refl

link_refused_test : (extract_bin_zip 100 never free bin_dir link []).1 ≡ err symlink
unfolding extract_bin_zip extract_entries extract_entry to_slashes split_slashes has_parent
    safe_rel_path clean_from is_below eq_text eq_path lookup remove_file put mkdir_from
link_refused_test = refl

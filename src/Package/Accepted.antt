-- ===== src/Package/Accepted.antt =====
-- A package that passes the check of an upload, on a node (backend/internal/api/handlers_publish.go and
-- backend/internal/agent/extract.go).
use encode_system.Prelude.{
  ℕ, ◌+◌, ◌≤◌, ◌≡◌, inl, inr, refl, ap, ◌∙◌, List, [], ◌∷◌, Bool, false, not, arith, ◌==◌, ltb,
  some, Bool-cases, All, length,
}
use encode_system.Prelude.Results.{ok, guard_passed, bind_passed}
use encode_system.FileSystem.{FilePath, is_below, file, FileTree, lookup, mkdir_from}
use encode_system.FileSystem.Laws.{lookup-put_same}
use encode_system.FileSystem.Effects.{mkdir_from-lookup}
use encode_system.FileSystem.Success.{free, mkdir_from-ok, after_write, after_write-other}
use encode_system.Package.{
  ZipEntry, to_slashes, safe_rel_path, drop_last, is_dir_mode, is_symlink_mode, Disk, tmp_of,
  and_then, extract_entry, extract_entries, extract_bin_zip, has_link_bits, symlink, empty_zip,
  too_many_entries, validate_entries, validate_bin_zip,
}
use encode_system.Package.Targets.{safe_rel_path-below}
use encode_system.Package.Written.{
  target_of, size_of, on_files-ok, Placed, Fit, Spares, mkdir-Fit, write-Fit, write_file-ok,
}

unfoldable pub size_of_all : List ZipEntry → ℕ
size_of_all [] = 0
size_of_all (e ∷ es) = size_of e + size_of_all es

-- no later entry writes at the path of an entry's file
unfoldable pub Distinct : FilePath → List ZipEntry → Type 0
Distinct dir [] = Unit {0}
Distinct dir (e ∷ es) =
    (is_dir_mode e.mode ≡ false → All (Spares dir (target_of dir e)) es) × Distinct dir es

-- the file of an entry stands in the tree
abbrev pub Stands : FilePath → FileTree → ZipEntry → Type 0
Stands dir fs e = is_dir_mode e.mode ≡ false → lookup (target_of dir e) fs ≡ some (file e.content)

module _ (F G : FilePath → Type 0) (apart : (f g : FilePath) → F f → G g → is_below f g ≡ false)
    (max_bytes : ℕ) (is_abs : List ℕ → Bool) (dir : FilePath) where
  -- what the extraction of an entry has done
  abbrev Extracted : ZipEntry → Disk → Disk → Type 0
  Extracted e d t =
      Fit F G t.files
      × (t.written ≡ d.written + size_of e)
      × Stands dir t.files e
      × ((p : FilePath) → F p → Spares dir p e → lookup p t.files ≡ lookup p d.files)

  extract_entry-Extracted :
      (e : ZipEntry) (d : Disk)
      → safe_rel_path is_abs (to_slashes e.name) ≡ ok tt
      → is_symlink_mode e.mode ≡ false
      → Placed F G dir e
      → Fit F G d.files
      → d.written + size_of e ≤ max_bytes
      → (t : Disk) × (extract_entry max_bytes is_abs free dir e d ≡ (t, ok tt)) × Extracted e d t
  unfolding extract_entry
  extract_entry-Extracted e d safe plain (as_folder, as_file) fit fits =
      let target = target_of dir e in
      let below = safe_rel_path-below is_abs (to_slashes e.name) dir safe in
      elim (Bool-cases (is_dir_mode e.mode)) [
        | inl k ↦
            let in_g = as_folder k in
            let made =
              on_files-ok d (mkdir_from [] target d.files)
                (mkdir_from-ok [] target d.files (λ q b. fit.1 target q in_g b)) in
            (
              record d { files = (mkdir_from [] target d.files).0 },
              rw safe (rw below (rw k made)),
              (
                mkdir-Fit F G apart target d.files in_g fit,
                rw k (omega arith),
                (λ l. absurd (cc)),
                λ p in_f s. mkdir_from-lookup p [] target d.files (apart p target in_f in_g),
              ),
            )
        | inr k ↦
            let (in_f, tmp_in_f, in_g) = as_file k in
            let parent = drop_last target in
            let made =
              on_files-ok d (mkdir_from [] parent d.files)
                (mkdir_from-ok [] parent d.files (λ q b. fit.1 parent q in_g b)) in
            let c : Disk = record d { files = (mkdir_from [] parent d.files).0 } in
            let c-Fit = mkdir-Fit F G apart parent d.files in_g fit in
            let room : c.written + length e.content ≤ max_bytes = rw k at fits in
            let done =
              write_file-ok F G apart max_bytes is_abs target e.content c in_f tmp_in_f c-Fit
                room in
            (
              record {
                files = after_write (tmp_of target) target e.content c.files;
                written = d.written + length e.content;
              },
              rw safe (rw below (rw k (rw plain (rw made done)))),
              (
                write-Fit F G apart target e.content c.files in_f c-Fit,
                rw k refl,
                (λ l. lookup-put_same target (file e.content) _),
                λ p p_in_f s.
                    after_write-other p (tmp_of target) target e.content c.files (s k).0 (s k).1
                    ∙ mkdir_from-lookup p [] parent d.files (apart p parent p_in_f in_g),
              ),
            )
      ]

  extract_entries-ok :
      (es : List ZipEntry) (d : Disk)
      → validate_entries is_abs es ≡ ok tt
      → All (λ (e : ZipEntry). is_symlink_mode e.mode ≡ false) es
      → All (Placed F G dir) es
      → Distinct dir es
      → Fit F G d.files
      → d.written + size_of_all es ≤ max_bytes
      → (t : Disk) × (extract_entries max_bytes is_abs free dir es d ≡ (t, ok tt))
        × (t.written ≡ d.written + size_of_all es)
        × All (Stands dir t.files) es
        × ((p : FilePath) → F p → All (Spares dir p) es → lookup p t.files ≡ lookup p d.files)
  unfolding validate_entries extract_entries size_of_all Distinct
  extract_entries-ok [] d h plain placed distinct fit fits =
      (d, refl, omega arith, tt, λ p k s. refl)
  extract_entries-ok (e ∷ es) d h (plain, plains) (placed, more_placed) (own, distinct) fit fits =
      let (no_bits, h1) = guard_passed (not (has_link_bits e.mode)) symlink h in
      let (u, safe, h2) =
        bind_passed (safe_rel_path is_abs (to_slashes e.name)) (λ u. validate_entries is_abs es)
          h1 in
      let (t, done, (t-Fit, grown, stands, same)) =
        extract_entry-Extracted e d safe plain placed fit (omega (arith, fits)) in
      let (z, rest, sum, all_stand, rest_same) =
        extract_entries-ok es t h2 plains more_placed distinct t-Fit (omega (arith, fits, grown)) in
      (
        z,
        ap (λ o. and_then o (extract_entries max_bytes is_abs free dir es)) done ∙ rest,
        omega (arith, sum, grown),
        ((λ k. rest_same (target_of dir e) (placed.1 k).0 (own k) ∙ stands k), all_stand),
        λ p in_f (s, ss). rest_same p in_f ss ∙ same p in_f s,
      )

  -- Let a package be accepted by the check of an upload and none of its entries be a symbolic link, which the
  -- check does not see. Let its files and their temporary files lie at paths of F, and the folders that it
  -- wants, and the bin directory, at paths of G, where no path of F is one of G or an ancestor of one; let no
  -- folder stand at a path of F and no file on the way to one of G; let no file be in use, no entry write where
  -- the file of an earlier one stands, and the files fit under the cap. Then a node extracts the package
  -- without an error, and at the end the file of each entry stands at its path with its content.
  pub extract_bin_zip-validated :
      (es : List ZipEntry) (fs : FileTree)
      → validate_bin_zip is_abs es ≡ ok tt
      → All (λ (e : ZipEntry). is_symlink_mode e.mode ≡ false) es
      → G dir
      → All (Placed F G dir) es
      → Distinct dir es
      → Fit F G fs
      → size_of_all es ≤ max_bytes
      → (t : Disk) × (extract_bin_zip max_bytes is_abs free dir es fs ≡ (t, ok tt))
        × (t.written ≡ size_of_all es)
        × All (Stands dir t.files) es
  unfolding validate_bin_zip extract_bin_zip
  extract_bin_zip-validated es fs h plain in_g placed distinct fit fits =
      let (some_entry, h1) = guard_passed (not (length es == 0)) empty_zip h in
      let (not_many, h2) = guard_passed (not (ltb 5000 (length es))) too_many_entries h1 in
      let start : Disk = record { files = fs; written = 0 } in
      let made =
        on_files-ok start (mkdir_from [] dir fs)
          (mkdir_from-ok [] dir fs (λ q b. fit.1 dir q in_g b)) in
      let (t, done, sum, stand, same) =
        extract_entries-ok es (record { files = (mkdir_from [] dir fs).0; written = 0 }) h2 plain
          placed distinct (mkdir-Fit F G apart dir fs in_g fit) (omega (arith, fits)) in
      (t, rw made done, omega (arith, sum), stand)

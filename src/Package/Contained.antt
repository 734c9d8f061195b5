-- ===== src/Package/Contained.antt =====
-- What the extraction of a package leaves alone, and how much it takes (backend/internal/agent/extract.go).
use encode_system.Prelude.{
  ℕ, ◌+◌, ◌≤◌, ◌≡◌, ◌⊎◌, inl, inr, ap, ◌∙◌, List, [], ◌∷◌, Bool, true, false, none, arith,
  Bool-cases,
}
use encode_system.FileSystem.{FilePath, eq_path, is_below, FileTree, lookup, mkdir_from}
use encode_system.FileSystem.Laws.{eq_path-same, is_below_both, bytes_of}
use encode_system.Package.{
  ZipEntry, to_slashes, split_slashes, safe_rel_path, clean_from, drop_last, is_dir_mode,
  is_symlink_mode, Disk, tmp_of, on_files, write_file, place, extract_entry, extract_entries,
  extract_bin_zip,
}
use encode_system.Package.Targets.{tmp_of-below, drop_last-below}
use encode_system.Package.Kept.{Kept, and_then-Kept, Kept-refl, mkdir-Kept, write_file-Kept}

module _ (max_bytes : ℕ) (is_abs : List ℕ → Bool) (locked : FilePath → Bool) where
  -- the temporary file of a target in the directory is that of the directory, or in it
  Kept-dir :
      (p dir target : FilePath) (d t : Disk)
      → is_below dir p ≡ false
      → is_below dir target ≡ true
      → Kept max_bytes p (tmp_of target) d t
      → Kept max_bytes p (tmp_of dir) d t
  Kept-dir p dir target d t out below (inl k, b, c) = (inl k, b, c)
  Kept-dir p dir target d t out below (inr (e, k), b, c) = elim (tmp_of-below dir target below) [
    | inl same ↦ (inr (e ∙ ap tmp_of same, k), b, c)
    | inr inside ↦ absurd (cc)
  ]

  place-Kept :
      (p dir target : FilePath) (e : ZipEntry) (d : Disk)
      → is_below dir p ≡ false
      → is_below p dir ≡ false
      → Kept max_bytes p (tmp_of dir) d (place max_bytes is_abs locked dir target e d).0
  place-Kept p dir target e d out up = elim (Bool-cases (is_below dir target)) [
    | inr b ↦ rw b (Kept-refl max_bytes is_abs locked p (tmp_of dir) d)
    | inl b ↦
        let apart : is_below p target ≡ false = elim (Bool-cases (is_below p target)) [
          | inl l ↦ absurd (cc (is_below_both p dir target l b up, out))
          | inr l ↦ l
        ] in
        let other : eq_path target p ≡ false = elim (Bool-cases (eq_path target p)) [
          | inl l ↦ absurd (cc (eq_path-same target p l, b, out))
          | inr l ↦ l
        ] in
        elim (Bool-cases (is_dir_mode e.mode)) [
          | inl k ↦ rw b (rw k (mkdir-Kept max_bytes is_abs locked p (tmp_of dir) target d apart))
          | inr k ↦ elim (Bool-cases (is_symlink_mode e.mode)) [
            | inl l ↦ rw b (rw k (rw l (Kept-refl max_bytes is_abs locked p (tmp_of dir) d)))
            | inr l ↦ rw b (
                rw k (
                  rw l (
                    and_then-Kept max_bytes is_abs locked p (tmp_of dir) d
                      (on_files d (mkdir_from [] (drop_last target) d.files))
                      (write_file max_bytes is_abs locked target e.content)
                      (mkdir-Kept max_bytes is_abs locked p (tmp_of dir) (drop_last target) d
                        (drop_last-below p target apart))
                      (Kept-dir p dir target _ _ out b
                        (write_file-Kept max_bytes is_abs locked p target e.content _ other)))))
          ]
        ]
  ]

  extract_entries-Kept :
      (p dir : FilePath) (es : List ZipEntry) (d : Disk)
      → is_below dir p ≡ false
      → is_below p dir ≡ false
      → Kept max_bytes p (tmp_of dir) d (extract_entries max_bytes is_abs locked dir es d).0
  unfolding extract_entries extract_entry
  extract_entries-Kept p dir [] d out up = Kept-refl max_bytes is_abs locked p (tmp_of dir) d
  extract_entries-Kept p dir (e ∷ es) d out up =
      let target = clean_from dir (split_slashes (to_slashes e.name)) in
      and_then-Kept max_bytes is_abs locked p (tmp_of dir) d _
        (extract_entries max_bytes is_abs locked dir es)
        (and_then-Kept max_bytes is_abs locked p (tmp_of dir) d
          (d, safe_rel_path is_abs (to_slashes e.name)) (place max_bytes is_abs locked dir target e)
          (Kept-refl max_bytes is_abs locked p (tmp_of dir) d) (place-Kept p dir target e d out up))
        (extract_entries-Kept p dir es _ out up)

  -- However the extraction of a package ends, with or without an error, and whatever its entries are called: a
  -- path that is neither the directory, nor below it, nor one of its ancestors, is as it was, but for the
  -- directory's own name with .tmp, which may be gone (an entry named . writes and removes it); and the bytes
  -- of the files on the disk have grown by no more than the cap.
  pub extract_bin_zip-Contained :
      (p dir : FilePath) (es : List ZipEntry) (fs : FileTree)
      → is_below dir p ≡ false
      → is_below p dir ≡ false
      → let after = (extract_bin_zip max_bytes is_abs locked dir es fs).0.files in
        ((lookup p after ≡ lookup p fs) ⊎ ((p ≡ tmp_of dir) × (lookup p after ≡ none)))
        × (bytes_of after ≤ bytes_of fs + max_bytes)
  unfolding extract_bin_zip
  extract_bin_zip-Contained p dir es fs out up =
      let start : Disk = record { files = fs; written = 0 } in
      let (same, bytes, cap) =
        and_then-Kept max_bytes is_abs locked p (tmp_of dir) start
          (on_files start (mkdir_from [] dir fs)) (extract_entries max_bytes is_abs locked dir es)
          (mkdir-Kept max_bytes is_abs locked p (tmp_of dir) dir start up)
          (extract_entries-Kept p dir es _ out up) in
      (same, omega (arith, bytes, cap (omega arith)))

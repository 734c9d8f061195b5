-- ===== src/Package/Kept.antt =====
-- What one file of a package leaves alone, and how much it takes (backend/internal/agent/extract.go).
use mathlib.Core.Path.{subst}
use encode_system.Prelude.{
  ℕ, ◌+◌, ◌-◌, ◌≤◌, ◌<◌, ◌≡◌, ◌⊎◌, inl, inr, refl, sym, ◌∙◌, List, [], Bool, false, none, arith,
  ltb, Bool-cases, length,
}
use encode_system.Prelude.Results.{ok, err}
use encode_system.FileSystem.{
  FilePath, eq_path, is_below, file, FileTree, FileError, lookup, remove_file, put, mkdir_from,
}
use encode_system.FileSystem.Laws.{
  eq_path-same, lookup-remove_file_same, lookup-remove_file_other, lookup-put_same,
  lookup-put_other, bytes_of, bytes_of-remove_file, bytes_of-put, bytes_of-take,
}
use encode_system.FileSystem.Effects.{
  mkdir_from-lookup, mkdir_from-bytes, open_file-cases, rename-cases,
}
use encode_system.Package.{
  PackageError, file_error, Disk, Outcome, tmp_of, and_then, on_files, copy_and_swap, write_file,
}
use encode_system.Package.Targets.{on_files-disk}

-- `t` is `d` at the path p, or p is the temporary file and gone; and no more bytes than were counted
abbrev pub Kept : ℕ → FilePath → FilePath → Disk → Disk → Type 0
Kept max_bytes p tmp d t =
    ((lookup p t.files ≡ lookup p d.files) ⊎ ((p ≡ tmp) × (lookup p t.files ≡ none)))
    × (bytes_of t.files + d.written ≤ bytes_of d.files + t.written)
    × (d.written ≤ max_bytes → t.written ≤ max_bytes)

module _ (max_bytes : ℕ) (is_abs : List ℕ → Bool) (locked : FilePath → Bool) where
  pub Kept-trans :
      (p tmp : FilePath) (d t u : Disk)
      → Kept max_bytes p tmp d t
      → Kept max_bytes p tmp t u
      → Kept max_bytes p tmp d u
  Kept-trans p tmp d t u (inl a, b, c) (inl k, l, m) =
      (inl (k ∙ a), omega (arith, b, l), λ h. m (c h))
  Kept-trans p tmp d t u (inr (e, a), b, c) (inl k, l, m) =
      (inr (e, k ∙ a), omega (arith, b, l), λ h. m (c h))
  Kept-trans p tmp d t u (a, b, c) (inr k, l, m) = (inr k, omega (arith, b, l), λ h. m (c h))

  pub and_then-Kept :
      (p tmp : FilePath) (d : Disk) (o : Outcome) (next : Disk → Outcome)
      → Kept max_bytes p tmp d o.0
      → Kept max_bytes p tmp o.0 (next o.0).0
      → Kept max_bytes p tmp d (and_then o next).0
  and_then-Kept p tmp d (t, ok u) next a b = Kept-trans p tmp d t (next t).0 a b
  and_then-Kept p tmp d (t, err e) next a b = a

  pub Kept-refl : (p tmp : FilePath) (d : Disk) → Kept max_bytes p tmp d d
  Kept-refl p tmp d = (inl refl, omega arith, λ h. h)

  -- the folders of a path of which p is no ancestor
  pub mkdir-Kept :
      (p tmp target : FilePath) (d : Disk)
      → is_below p target ≡ false
      → Kept max_bytes p tmp d (on_files d (mkdir_from [] target d.files)).0
  mkdir-Kept p tmp target d h =
      subst (Kept max_bytes p tmp d) (sym (on_files-disk d (mkdir_from [] target d.files))) (
        inl (mkdir_from-lookup p [] target d.files h),
        omega (arith, mkdir_from-bytes [] target d.files),
        λ h. h,
      )

  -- The copy is too large, the swap fails, or the file is there: the temporary file is gone.
  pub copy_and_swap-cases :
      (tmp target : FilePath) (content : List ℕ) (d : Disk)
      → let full = put tmp (file content) d.files in
        let sum = d.written + length content in
        let r = copy_and_swap max_bytes is_abs locked tmp target content d in
        (r ≡ (record d { files = remove_file tmp d.files }, err PackageError.too_large))
        ⊎ ((sum ≤ max_bytes) ⊎ (max_bytes < d.written))
          × ((e : FileError) × (r
                ≡ (record { files = remove_file tmp full; written = sum }, err (file_error e))))
        ⊎ ((sum ≤ max_bytes) ⊎ (max_bytes < d.written))
          × (r ≡ (
            record { files = put target (file content) (remove_file tmp full); written = sum },
            ok tt,
          ))
  copy_and_swap-cases tmp target content d =
      elim (Bool-cases (ltb (max_bytes - d.written) (length content))) [
        | inl k ↦ inl (rw k refl)
        | inr k ↦
            let fits : (d.written + length content ≤ max_bytes) ⊎ (max_bytes < d.written) =
              ground (arith, k) in
            elim (rename-cases locked tmp target (file content) (put tmp (file content) d.files)
              (lookup-put_same tmp (file content) d.files)) [
                | inl (e, h) ↦ inr (inl (fits, (e, rw k (rw h refl))))
                | inr h ↦ inr (inr (fits, rw k (rw h refl)))
              ]
      ]

  -- p is as before, or it is the temporary file and gone
  gone-lookup :
      (p tmp : FilePath) (fs gs : FileTree)
      → (eq_path tmp p ≡ false → lookup p gs ≡ lookup p fs)
      → (tmp ≡ p → lookup p gs ≡ none)
      → (lookup p gs ≡ lookup p fs) ⊎ ((p ≡ tmp) × (lookup p gs ≡ none))
  gone-lookup p tmp fs gs a b = elim (Bool-cases (eq_path tmp p)) [
    | inl e ↦ inr (sym (eq_path-same tmp p e), b (eq_path-same tmp p e))
    | inr e ↦ inl (a e)
  ]

  removed-at : (p tmp : FilePath) (fs : FileTree) → tmp ≡ p → lookup p (remove_file tmp fs) ≡ none
  removed-at p tmp fs e =
      subst (λ z. lookup z (remove_file tmp fs) ≡ none) e (lookup-remove_file_same tmp fs)

  -- with the empty temporary file there already
  copy_and_swap-Kept :
      (p tmp target : FilePath) (content : List ℕ) (d : Disk)
      → eq_path target p ≡ false
      → Kept max_bytes p tmp d
          (copy_and_swap max_bytes is_abs locked tmp target content
            (record d { files = put tmp (file []) d.files })).0
  copy_and_swap-Kept p tmp target content d off =
      let fs = put tmp (file []) d.files in
      let full = put tmp (file content) fs in
      let c = record d { files = fs } in
      let made = bytes_of-put tmp (file []) d.files in
      let grown = bytes_of-put tmp (file content) fs in
      let taken = bytes_of-take tmp (file content) full (lookup-put_same tmp (file content) fs) in
      let first = λ (e : eq_path tmp p ≡ false). lookup-put_other p tmp (file []) d.files e in
      let both = λ (e : eq_path tmp p ≡ false).
        lookup-remove_file_other p tmp full e
        ∙ lookup-put_other p tmp (file content) fs e
        ∙ first e in
      elim (copy_and_swap-cases tmp target content c) [
        | inl h ↦
            subst (λ z. Kept max_bytes p tmp d z.0) (sym h)
              (
                gone-lookup p tmp d.files (remove_file tmp fs)
                    (λ e. lookup-remove_file_other p tmp fs e ∙ first e) (removed-at p tmp fs),
                omega (arith, made, bytes_of-remove_file tmp fs),
                λ k. k,
              )
        | inr (inl (fits, (e, h))) ↦
            subst (λ z. Kept max_bytes p tmp d z.0) (sym h)
              (
                gone-lookup p tmp d.files (remove_file tmp full) both (removed-at p tmp full),
                omega (arith, made, grown, taken),
                λ k. omega (arith, fits, k),
              )
        | inr (inr (fits, h)) ↦
            subst (λ z. Kept max_bytes p tmp d z.0) (sym h)
              (
                gone-lookup p tmp d.files (put target (file content) (remove_file tmp full))
                    (λ e.
                      lookup-put_other p target (file content) (remove_file tmp full) off ∙ both e)
                    (λ e.
                      lookup-put_other p target (file content) (remove_file tmp full) off
                      ∙ removed-at p tmp full e),
                omega (
                  arith,
                  made,
                  grown,
                  taken,
                  bytes_of-put target (file content) (remove_file tmp full),
                ),
                λ k. omega (arith, fits, k),
              )
      ]

  pub write_file-Kept :
      (p target : FilePath) (content : List ℕ) (d : Disk)
      → eq_path target p ≡ false
      → Kept max_bytes p (tmp_of target) d (write_file max_bytes is_abs locked target content d).0
  unfolding write_file
  write_file-Kept p target content d off = elim (open_file-cases locked (tmp_of target) d.files) [
    | inl (e, h) ↦ rw h (Kept-refl p (tmp_of target) d)
    | inr h ↦ rw h (copy_and_swap-Kept p (tmp_of target) target content d off)
  ]

-- ===== src/Package/Written.antt =====
-- The extraction of an entry that nothing on the disk is in the way of (backend/internal/agent/extract.go).
use mathlib.Core.Path.{subst}
use encode_system.Prelude.{
  ℕ, ◌+◌, ◌-◌, ◌≤◌, ◌≡◌, inl, inr, refl, ap, ◌∙◌, List, [], ◌∷◌, ◌++◌, Bool, true, false, arith,
  ltb, Bool-cases, length, if◌then◌else◌,
}
use encode_system.Prelude.Results.{ok, err}
use encode_system.FileSystem.{
  FilePath, eq_text, eq_path, is_below, file, FileTree, Changed, lookup, put, mkdir_from,
}
use encode_system.FileSystem.Laws.{eq_path-same, lookup-put_same, lookup-put_other}
use encode_system.FileSystem.Effects.{mkdir_from-lookup}
use encode_system.FileSystem.Success.{
  is_file, is_folder, free, mkdir_from-is_file, open_file-ok, rename-ok, after_write,
  after_write-other, after_write-tmp,
}
use encode_system.Package.{
  ZipEntry, to_slashes, split_slashes, tmp_suffix, clean_from, drop_last, is_dir_mode, Disk, tmp_of,
  on_files, write_file,
}

-- filepath.Join(destDir, name) of an entry
abbrev pub target_of : FilePath → ZipEntry → FilePath
target_of dir e = clean_from dir (split_slashes (to_slashes e.name))

abbrev pub size_of : ZipEntry → ℕ
size_of e = if is_dir_mode e.mode then 0 else length e.content

eq_text-suffix : (s : List ℕ) → eq_text s (s ++ tmp_suffix) ≡ false
unfolding eq_text
eq_text-suffix [] = refl
eq_text-suffix (c ∷ s) = ground (arith, eq_text-suffix s)

tmp_of-other : (target : FilePath) → eq_path target (tmp_of target) ≡ false
unfolding tmp_of eq_path
tmp_of-other [] = refl
tmp_of-other (x ∷ []) = rw (eq_text-suffix x) refl
tmp_of-other (x ∷ y ∷ target) = ground (arith, tmp_of-other (y ∷ target))

pub on_files-ok :
    (d : Disk) (c : Changed) → c.1 ≡ ok tt → on_files d c ≡ (record d { files = c.0 }, ok tt)
on_files-ok d (fs, ok u) h = refl
on_files-ok d (fs, err e) h = absurd (cc)

-- an entry's paths: those of its file and the temporary one are in F, the folder that it wants in G
abbrev pub Placed : (FilePath → Type 0) → (FilePath → Type 0) → FilePath → ZipEntry → Type 0
Placed F G dir e =
    (is_dir_mode e.mode ≡ true → G (target_of dir e))
    × (is_dir_mode e.mode ≡ false
        → F (target_of dir e) × F (tmp_of (target_of dir e)) × G (drop_last (target_of dir e)))

-- no folder stands at a path of F, and no file on the way to one of G
abbrev pub Fit : (FilePath → Type 0) → (FilePath → Type 0) → FileTree → Type 0
Fit F G fs =
    ((f : FilePath) → F f → is_folder (lookup f fs) ≡ false)
    × ((g q : FilePath) → G g → is_below q g ≡ true → is_file (lookup q fs) ≡ false)

-- an entry does not write at p
abbrev pub Spares : FilePath → FilePath → ZipEntry → Type 0
Spares dir p e =
    is_dir_mode e.mode ≡ false
    → (eq_path (target_of dir e) p ≡ false) × (eq_path (tmp_of (target_of dir e)) p ≡ false)

module _ (F G : FilePath → Type 0)
    (apart : (f g : FilePath) → F f → G g → is_below f g ≡ false) where
  pub mkdir-Fit : (g : FilePath) (fs : FileTree) → G g → Fit F G fs → Fit F G (mkdir_from [] g fs).0
  mkdir-Fit g fs in_g (no_folder, no_file) = (
    λ f k. ap is_folder (mkdir_from-lookup f [] g fs (apart f g k in_g)) ∙ no_folder f k,
    λ h q k b. mkdir_from-is_file q [] g fs (no_file h q k b),
  )

  pub write-Fit :
      (target : FilePath) (c : List ℕ) (fs : FileTree)
      → F target
      → Fit F G fs
      → Fit F G (after_write (tmp_of target) target c fs)
  write-Fit target c fs in_f (no_folder, no_file) =
      let tmp = tmp_of target in
      let gone = after_write-tmp tmp target c fs (tmp_of-other target) in
      let after = after_write tmp target c fs in
      (
        λ f k. elim (Bool-cases (eq_path target f)) [
          | inl e ↦
              subst (λ z. is_folder (lookup z after) ≡ false) (eq_path-same target f e)
                (ap is_folder (lookup-put_same target (file c) _))
          | inr e ↦ elim (Bool-cases (eq_path tmp f)) [
            | inl l ↦
                subst (λ z. is_folder (lookup z after) ≡ false) (eq_path-same tmp f l)
                  (ap is_folder gone)
            | inr l ↦ ap is_folder (after_write-other f tmp target c fs e l) ∙ no_folder f k
          ]
        ],
        λ g q k b. elim (Bool-cases (eq_path target q)) [
          | inl e ↦ absurd (cc (eq_path-same target q e, apart target g in_f k, b))
          | inr e ↦ elim (Bool-cases (eq_path tmp q)) [
            | inl l ↦
                subst (λ z. is_file (lookup z after) ≡ false) (eq_path-same tmp q l)
                  (ap is_file gone)
            | inr l ↦ ap is_file (after_write-other q tmp target c fs e l) ∙ no_file g q k b
          ]
        ],
      )

  module _ (max_bytes : ℕ) (is_abs : List ℕ → Bool) where
    pub write_file-ok :
        (target : FilePath) (c : List ℕ) (d : Disk)
        → F target
        → F (tmp_of target)
        → Fit F G d.files
        → d.written + length c ≤ max_bytes
        → write_file max_bytes is_abs free target c d ≡ (
          record {
            files = after_write (tmp_of target) target c d.files;
            written = d.written + length c;
          },
          ok tt,
        )
    unfolding write_file
    write_file-ok target c d in_f tmp_in_f (no_folder, no_file) fits =
        let tmp = tmp_of target in
        let fs = put tmp (file []) d.files in
        let full = put tmp (file c) fs in
        let off : eq_path tmp target ≡ false = elim (Bool-cases (eq_path tmp target)) [
          | inl e ↦ absurd (cc (eq_path-same tmp target e, tmp_of-other target))
          | inr e ↦ e
        ] in
        let there =
          ap is_folder (
            lookup-put_other target tmp (file c) fs off
            ∙ lookup-put_other target tmp (file []) d.files off)
          ∙ no_folder target in_f in
        let room : ltb (max_bytes - d.written) (length c) ≡ false = ground (arith, fits) in
        rw (open_file-ok tmp d.files (no_folder tmp tmp_in_f)) (
          rw room
            (rw (rename-ok tmp target (file c) full (lookup-put_same tmp (file c) fs) there) refl))

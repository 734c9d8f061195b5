-- ===== src/Package/Targets.antt =====
-- Where the files of a package and their temporary files lie (backend/internal/agent/extract.go).
use mathlib.Core.List.{append_assoc, append-nil}
use mathlib.Core.Path.{subst}
use encode_system.Prelude.{
  ℕ, ◌≡◌, ◌⊎◌, inl, inr, refl, sym, ap, ◌∙◌, List, [], ◌∷◌, ◌++◌, Bool, true, false, not, ◌||◌,
  arith, ◌==◌, Bool-cases,
}
use encode_system.Prelude.Results.{ok, err, guard_passed}
use encode_system.FileSystem.{FilePath, eq_text, is_below, Changed}
use encode_system.FileSystem.Laws.{eq_text-same, is_below-append}
use encode_system.Package.{
  split_slashes, is_parent, is_nothing, has_parent, is_drive, is_unc, is_empty, first_is, slash,
  backslash_byte, empty_name, absolute_path, drive_letter, unc_path, safe_rel_path, clean_from,
  drop_last, Disk, tmp_of, on_files,
}

-- a name without a parent part stays below
clean_from-below :
    (dir more segs : List (List ℕ))
    → has_parent segs ≡ false
    → is_below dir (clean_from (dir ++ more) segs) ≡ true
unfolding clean_from has_parent
clean_from-below dir more [] h = is_below-append dir more
clean_from-below dir more (seg ∷ segs) h =
    let rest : has_parent segs ≡ false = ground (arith, h) in
    let child : is_parent seg ≡ false = ground (arith, h) in
    elim (Bool-cases (is_nothing seg)) [
      | inl e ↦ rw e (clean_from-below dir more segs rest)
      | inr e ↦ rw e (
          rw child (
            subst (λ z. is_below dir (clean_from z segs) ≡ true)
              (sym (append_assoc dir more (seg ∷ [])))
              (clean_from-below dir (more ++ seg ∷ []) segs rest)))
    ]

-- so the canonical check of a name that passes the first one never fails
pub safe_rel_path-below :
    (is_abs : List ℕ → Bool) (name : List ℕ) (dir : List (List ℕ))
    → safe_rel_path is_abs name ≡ ok tt
    → is_below dir (clean_from dir (split_slashes name)) ≡ true
unfolding safe_rel_path
safe_rel_path-below is_abs name dir h =
    let (e1, h1) = guard_passed (not (is_empty name)) empty_name h in
    let (e2, h2) =
      guard_passed (not (is_abs name || first_is (λ c. c == slash || c == backslash_byte) name))
        absolute_path h1 in
    let (e3, h3) = guard_passed (not (is_drive name)) drive_letter h2 in
    let (e4, h4) = guard_passed (not (is_unc name)) unc_path h3 in
    let child : has_parent (split_slashes name) ≡ false =
      elim (Bool-cases (has_parent (split_slashes name))) [
        | inl e ↦ absurd (cc (rw e at h4))
        | inr e ↦ e
      ] in
    subst (λ z. is_below dir (clean_from z (split_slashes name)) ≡ true) (append-nil dir)
      (clean_from-below dir [] (split_slashes name) child)

-- the temporary file of what is below the directory is below it too, but for that of the directory itself
pub tmp_of-below :
    (dir target : FilePath)
    → is_below dir target ≡ true
    → (target ≡ dir) ⊎ (is_below dir (tmp_of target) ≡ true)
unfolding tmp_of is_below
tmp_of-below [] target h = inr refl
tmp_of-below (d ∷ dir) [] h = absurd (cc)
tmp_of-below (d ∷ []) (x ∷ []) h =
    let same : d ≡ x = eq_text-same d x (ground (arith, h)) in inl (ap (λ z. z ∷ []) (sym same))
tmp_of-below (d ∷ e ∷ dir) (x ∷ []) h = absurd (ground (arith, h))
tmp_of-below (d ∷ dir) (x ∷ y ∷ target) h =
    let same : d ≡ x = eq_text-same d x (ground (arith, h)) in
    elim (tmp_of-below dir (y ∷ target) (ground (arith, h))) [
      | inl e ↦ inl (ap (λ z. x ∷ z) e ∙ ap (λ z. z ∷ dir) (sym same))
      | inr e ↦ inr (ground (arith, h, e))
    ]

-- an ancestor of the folder of a path is one of the path
pub drop_last-below :
    (p target : FilePath) → is_below p target ≡ false → is_below p (drop_last target) ≡ false
unfolding is_below
drop_last-below [] target h = absurd (cc)
drop_last-below (s ∷ p) [] h = refl
drop_last-below (s ∷ p) (x ∷ []) h = refl
drop_last-below (s ∷ p) (x ∷ y ∷ target) h = elim (Bool-cases (is_below p (y ∷ target))) [
  | inl e ↦ let off : eq_text s x ≡ false = ground (arith, h, e) in rw off refl
  | inr e ↦ ground (arith, drop_last-below p (y ∷ target) e)
]

pub on_files-disk : (d : Disk) (c : Changed) → (on_files d c).0 ≡ record d { files = c.0 }
on_files-disk d (fs, ok u) = refl
on_files-disk d (fs, err e) = refl

-- ===== src/FileSystem/Effects.antt =====
-- What the operations of os leave alone, and how many bytes they add.
use mathlib.Core.Path.{subst}
use mathlib.Core.List.{append_assoc}
use encode_system.Prelude.{
  ℕ, ◌≤◌, ◌≡◌, ◌⊎◌, inl, inr, refl, sym, ◌∙◌, List, [], ◌∷◌, ◌++◌, Bool, true, false, arith,
  Bool-cases, Option, none, some,
}
use encode_system.Prelude.Results.{ok, err}
use encode_system.FileSystem.{
  FilePath, eq_path, is_below, TreeNode, folder, file, FileTree, FileError, Changed, in_use,
  is_a_directory, lookup, remove_file, put, mkdir_one, mkdir_from, open_at, open_file, rename_at,
  rename,
}
use encode_system.FileSystem.Laws.{
  eq_path-same, is_below-append, lookup-put_other, bytes_of, bytes_of-put,
}

-- a path that is no ancestor of another is not met on the way to it
not_met :
    (p base : FilePath) (seg : List ℕ) (segs : List (List ℕ))
    → is_below p (base ++ seg ∷ segs) ≡ false
    → eq_path (base ++ seg ∷ []) p ≡ false
not_met p base seg segs h = elim (Bool-cases (eq_path (base ++ seg ∷ []) p)) [
  | inr e ↦ e
  | inl e ↦
      let met : is_below (base ++ seg ∷ []) ((base ++ seg ∷ []) ++ segs) ≡ true =
        is_below-append (base ++ seg ∷ []) segs in
      let on_way : is_below p (base ++ seg ∷ segs) ≡ true =
        subst (λ z. is_below z (base ++ seg ∷ segs) ≡ true) (eq_path-same _ _ e)
          (subst (λ z. is_below (base ++ seg ∷ []) z ≡ true) (append_assoc base (seg ∷ []) segs)
            met) in
      absurd (cc)
]

-- the two things that mkdir does at a path on its way
mkdir_one-cases :
    (P : Changed → Type 0) (p : FilePath) (fs : FileTree) (o : Option TreeNode)
    → (next : FileTree → Changed) → P (next (put p folder fs))
    → P (next fs)
    → P (fs, err FileError.not_a_directory)
    → P (mkdir_one p fs o next)
mkdir_one-cases P p fs none next a b c = a
mkdir_one-cases P p fs (some folder) next a b c = b
mkdir_one-cases P p fs (some (file x)) next a b c = c

pub mkdir_from-lookup :
    (p base : FilePath) (segs : List (List ℕ)) (fs : FileTree)
    → is_below p (base ++ segs) ≡ false
    → lookup p (mkdir_from base segs fs).0 ≡ lookup p fs
unfolding mkdir_from
mkdir_from-lookup p base [] fs h = refl
mkdir_from-lookup p base (seg ∷ segs) fs h =
    let here = base ++ seg ∷ [] in
    let h1 : is_below p (here ++ segs) ≡ false =
      subst (λ z. is_below p z ≡ false) (sym (append_assoc base (seg ∷ []) segs)) h in
    mkdir_one-cases (λ c. lookup p c.0 ≡ lookup p fs) here fs _ (mkdir_from here segs)
      (mkdir_from-lookup p (base ++ seg ∷ []) segs (put here folder fs) h1
        ∙ lookup-put_other p here folder fs (not_met p base seg segs h))
      (mkdir_from-lookup p (base ++ seg ∷ []) segs fs h1) refl

pub mkdir_from-bytes :
    (base : FilePath) (segs : List (List ℕ)) (fs : FileTree)
    → bytes_of (mkdir_from base segs fs).0 ≤ bytes_of fs
unfolding mkdir_from
mkdir_from-bytes base [] fs = omega arith
mkdir_from-bytes base (seg ∷ segs) fs =
    let here = base ++ seg ∷ [] in
    let new = bytes_of-put here folder fs in
    let more = mkdir_from-bytes (base ++ seg ∷ []) segs (put here folder fs) in
    mkdir_one-cases (λ c. bytes_of c.0 ≤ bytes_of fs) here fs _ (mkdir_from here segs)
      (omega (arith, new, more)) (mkdir_from-bytes (base ++ seg ∷ []) segs fs) (omega arith)

-- creating a file fails and changes nothing, or leaves an empty file
pub open_file-cases :
    (locked : FilePath → Bool) (p : FilePath) (fs : FileTree)
    → ((e : FileError) × (open_file locked p fs ≡ (fs, err e)))
      ⊎ (open_file locked p fs ≡ (put p (file []) fs, ok tt))
unfolding open_file
open_file-cases locked p fs =
    let at_node =
      elim (lookup p fs)
        as (λ o.
          ((e : FileError) × (open_at p fs o ≡ (fs, err e)))
          ⊎ (open_at p fs o ≡ (put p (file []) fs, ok tt))) [
            | none ↦ inr refl
            | some folder ↦ inl (is_a_directory, refl)
            | some (file c) ↦ inr refl
          ] in
    elim (Bool-cases (locked p)) [ inl k ↦ inl (in_use, rw k refl) | inr k ↦ rw k at_node ]

-- renaming a file fails and changes nothing, or moves it
pub rename-cases :
    (locked : FilePath → Bool) (source target : FilePath) (n : TreeNode) (fs : FileTree)
    → lookup source fs ≡ some n
    → ((e : FileError) × (rename locked source target fs ≡ (fs, err e)))
      ⊎ (rename locked source target fs ≡ (put target n (remove_file source fs), ok tt))
unfolding rename
rename-cases locked source target n fs h =
    let at_node =
      elim (lookup target fs)
        as (λ o.
          ((e : FileError) × (rename_at source target fs (some n) o ≡ (fs, err e)))
          ⊎ (rename_at source target fs (some n) o
              ≡ (put target n (remove_file source fs), ok tt))) [
                | none ↦ inr refl
                | some folder ↦ inl (is_a_directory, refl)
                | some (file c) ↦ inr refl
              ] in
    elim (Bool-cases (locked target)) [
      | inl k ↦ inl (in_use, rw k refl)
      | inr k ↦ rw k (rw h at_node)
    ]

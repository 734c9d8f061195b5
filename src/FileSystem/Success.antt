-- ===== src/FileSystem/Success.antt =====
-- When the operations of os succeed, with no file in use.
use mathlib.Core.Path.{subst}
use mathlib.Core.List.{append_assoc}
use encode_system.Prelude.{
  ℕ, ◌≡◌, inl, inr, refl, sym, ap, ◌∙◌, List, [], ◌∷◌, ◌++◌, Bool, true, false, Bool-cases, Option,
  none, some,
}
use encode_system.Prelude.Results.{ok}
use encode_system.FileSystem.{
  FilePath, eq_path, is_below, TreeNode, folder, file, FileTree, Changed, lookup, remove_file, put,
  mkdir_one, mkdir_from, open_at, open_file, rename_at, rename,
}
use encode_system.FileSystem.Laws.{
  eq_path-same, is_below-append, lookup-put_other, lookup-put_same, lookup-remove_file_same,
  lookup-remove_file_other,
}

abbrev pub is_file : Option TreeNode → Bool
is_file (some (file c)) = true
is_file (some folder) = false
is_file none = false

abbrev pub is_folder : Option TreeNode → Bool
is_folder (some (file c)) = false
is_folder (some folder) = true
is_folder none = false

-- no file is in use
abbrev pub free : FilePath → Bool
free target = false

-- a new folder is no file
put-is_file :
    (q p : FilePath) (fs : FileTree)
    → is_file (lookup q fs) ≡ false
    → is_file (lookup q (put p folder fs)) ≡ false
put-is_file q p fs h = elim (Bool-cases (eq_path p q)) [
  | inl e ↦
      subst (λ z. is_file (lookup z (put p folder fs)) ≡ false) (eq_path-same p q e)
        (ap is_file (lookup-put_same p folder fs))
  | inr e ↦ ap is_file (lookup-put_other q p folder fs e) ∙ h
]

mkdir_one-folder :
    (P : Changed → Type 0) (p : FilePath) (fs : FileTree) (o : Option TreeNode)
    → (next : FileTree → Changed) → is_file o ≡ false
    → P (next (put p folder fs))
    → P (next fs)
    → P (mkdir_one p fs o next)
mkdir_one-folder P p fs none next h a b = a
mkdir_one-folder P p fs (some folder) next h a b = b
mkdir_one-folder P p fs (some (file c)) next h a b = absurd (cc)

-- with no file on the way to it, a folder is made
pub mkdir_from-ok :
    (base : FilePath) (segs : List (List ℕ)) (fs : FileTree)
    → ((q : FilePath) → is_below q (base ++ segs) ≡ true → is_file (lookup q fs) ≡ false)
    → (mkdir_from base segs fs).1 ≡ ok tt
unfolding mkdir_from
mkdir_from-ok base [] fs h = refl
mkdir_from-ok base (seg ∷ segs) fs h =
    let here = base ++ seg ∷ [] in
    let joined = append_assoc base (seg ∷ []) segs in
    let on_way : is_below here (base ++ seg ∷ segs) ≡ true =
      subst (λ z. is_below here z ≡ true) joined (is_below-append here segs) in
    let clear : (q : FilePath) → is_below q (here ++ segs) ≡ true → is_file (lookup q fs) ≡ false =
      λ q b. h q (subst (λ z. is_below q z ≡ true) joined b) in
    mkdir_one-folder (λ c. c.1 ≡ ok tt) here fs (lookup here fs) (mkdir_from here segs)
      (h here on_way)
      (mkdir_from-ok (base ++ seg ∷ []) segs (put here folder fs)
        (λ q b. put-is_file q here fs (clear q b)))
      (mkdir_from-ok (base ++ seg ∷ []) segs fs clear)

mkdir_one-stopped :
    (p : FilePath) (fs : FileTree) (o : Option TreeNode) (next : FileTree → Changed)
    → is_file o ≡ true
    → (mkdir_one p fs o next).0 ≡ fs
mkdir_one-stopped p fs none next h = absurd (cc)
mkdir_one-stopped p fs (some folder) next h = absurd (cc)
mkdir_one-stopped p fs (some (file c)) next h = refl

-- and no file is made
pub mkdir_from-is_file :
    (q base : FilePath) (segs : List (List ℕ)) (fs : FileTree)
    → is_file (lookup q fs) ≡ false
    → is_file (lookup q (mkdir_from base segs fs).0) ≡ false
unfolding mkdir_from
mkdir_from-is_file q base [] fs h = h
mkdir_from-is_file q base (seg ∷ segs) fs h =
    let here = base ++ seg ∷ [] in
    elim (Bool-cases (is_file (lookup here fs))) [
      | inl e ↦
          subst (λ z. is_file (lookup q z) ≡ false)
            (sym (mkdir_one-stopped here fs (lookup here fs) (mkdir_from here segs) e)) h
      | inr e ↦
          mkdir_one-folder (λ c. is_file (lookup q c.0) ≡ false) here fs (lookup here fs)
            (mkdir_from here segs) e
            (mkdir_from-is_file q (base ++ seg ∷ []) segs (put here folder fs)
              (put-is_file q here fs h))
            (mkdir_from-is_file q (base ++ seg ∷ []) segs fs h)
    ]

open_at-ok :
    (p : FilePath) (fs : FileTree) (o : Option TreeNode)
    → is_folder o ≡ false
    → open_at p fs o ≡ (put p (file []) fs, ok tt)
open_at-ok p fs none h = refl
open_at-ok p fs (some (file c)) h = refl
open_at-ok p fs (some folder) h = absurd (cc)

pub open_file-ok :
    (p : FilePath) (fs : FileTree)
    → is_folder (lookup p fs) ≡ false
    → open_file free p fs ≡ (put p (file []) fs, ok tt)
unfolding open_file
open_file-ok p fs h = open_at-ok p fs (lookup p fs) h

rename_at-ok :
    (source target : FilePath) (n : TreeNode) (fs : FileTree) (o : Option TreeNode)
    → is_folder o ≡ false
    → rename_at source target fs (some n) o ≡ (put target n (remove_file source fs), ok tt)
rename_at-ok source target n fs none h = refl
rename_at-ok source target n fs (some (file c)) h = refl
rename_at-ok source target n fs (some folder) h = absurd (cc)

pub rename-ok :
    (source target : FilePath) (n : TreeNode) (fs : FileTree)
    → lookup source fs ≡ some n
    → is_folder (lookup target fs) ≡ false
    → rename free source target fs ≡ (put target n (remove_file source fs), ok tt)
unfolding rename
rename-ok source target n fs h off = rw h (rename_at-ok source target n fs (lookup target fs) off)

-- the tree after a file was written to an empty temporary file and swapped in
abbrev pub after_write : FilePath → FilePath → List ℕ → FileTree → FileTree
after_write tmp target c fs =
    put target (file c) (remove_file tmp (put tmp (file c) (put tmp (file []) fs)))

pub after_write-other :
    (q tmp target : FilePath) (c : List ℕ) (fs : FileTree)
    → eq_path target q ≡ false
    → eq_path tmp q ≡ false
    → lookup q (after_write tmp target c fs) ≡ lookup q fs
after_write-other q tmp target c fs a b =
    lookup-put_other q target (file c) _ a
    ∙ lookup-remove_file_other q tmp _ b
    ∙ lookup-put_other q tmp (file c) _ b
    ∙ lookup-put_other q tmp (file []) fs b

pub after_write-tmp :
    (tmp target : FilePath) (c : List ℕ) (fs : FileTree)
    → eq_path target tmp ≡ false
    → lookup tmp (after_write tmp target c fs) ≡ none
after_write-tmp tmp target c fs a =
    lookup-put_other tmp target (file c) _ a ∙ lookup-remove_file_same tmp _

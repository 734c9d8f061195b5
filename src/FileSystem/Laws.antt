-- ===== src/FileSystem/Laws.antt =====
-- How the operations on a file tree change what is at a path, and the bytes in all.
use mathlib.Core.Path.{subst}
use encode_system.Prelude.{
  ℕ, ◌+◌, ◌≤◌, ◌≡◌, inl, inr, refl, sym, ap, ◌∙◌, List, [], ◌∷◌, ◌++◌, true, false, arith, ==-refl,
  Bool-cases, Option, none, some, length, if◌then◌else◌,
}
use encode_system.FileSystem.{
  FilePath, eq_text, eq_path, is_below, TreeNode, folder, file, FileTree, lookup, remove_file, put,
}

pub eq_text_refl : (s : List ℕ) → eq_text s s ≡ true
unfolding eq_text
eq_text_refl [] = refl
eq_text_refl (c ∷ s) = ground (arith, ==-refl c, eq_text_refl s)

pub eq_text-same : (s t : List ℕ) → eq_text s t ≡ true → s ≡ t
unfolding eq_text
eq_text-same [] [] h = refl
eq_text-same [] (d ∷ t) h = absurd (cc)
eq_text-same (c ∷ s) [] h = absurd (cc)
eq_text-same (c ∷ s) (d ∷ t) h =
    let first : c ≡ d = ground (arith, h) in
    let rest : eq_text s t ≡ true = ground (arith, h) in
    ap (λ y. c ∷ y) (eq_text-same s t rest) ∙ ap (λ x. x ∷ t) first

pub eq_path_refl : (p : FilePath) → eq_path p p ≡ true
unfolding eq_path
eq_path_refl [] = refl
eq_path_refl (s ∷ p) = rw (eq_text_refl s) (eq_path_refl p)

pub eq_path-same : (p q : FilePath) → eq_path p q ≡ true → p ≡ q
unfolding eq_path
eq_path-same [] [] h = refl
eq_path-same [] (t ∷ q) h = absurd (cc)
eq_path-same (s ∷ p) [] h = absurd (cc)
eq_path-same (s ∷ p) (t ∷ q) h =
    let first : eq_text s t ≡ true = ground (arith, h) in
    let rest : eq_path p q ≡ true = ground (arith, h) in
    ap (λ y. s ∷ y) (eq_path-same p q rest) ∙ ap (λ x. x ∷ q) (eq_text-same s t first)

pub is_below-append : (dir more : FilePath) → is_below dir (dir ++ more) ≡ true
unfolding is_below
is_below-append [] more = refl
is_below-append (d ∷ dir) more = rw (eq_text_refl d) (is_below-append dir more)

-- of two ancestors of a path, one is an ancestor of the other
pub is_below_both :
    (p dir target : FilePath)
    → is_below p target ≡ true
    → is_below dir target ≡ true
    → is_below p dir ≡ false
    → is_below dir p ≡ true
unfolding is_below
is_below_both [] dir target hp hd off = absurd (cc)
is_below_both (s ∷ p) [] target hp hd off = refl
is_below_both (s ∷ p) (d ∷ dir) [] hp hd off = absurd (cc)
is_below_both (s ∷ p) (d ∷ dir) (x ∷ target) hp hd off =
    let same_s : s ≡ x = eq_text-same s x (ground (arith, hp)) in
    let same_d : d ≡ x = eq_text-same d x (ground (arith, hd)) in
    let same : eq_text s d ≡ true =
      subst (λ z. eq_text s z ≡ true) (same_s ∙ sym same_d) (eq_text_refl s) in
    let back : eq_text d s ≡ true =
      subst (λ z. eq_text d z ≡ true) (same_d ∙ sym same_s) (eq_text_refl d) in
    let rest : is_below dir p ≡ true =
      is_below_both p dir target (ground (arith, hp)) (ground (arith, hd))
        (ground (arith, off, same)) in
    rw (back, rest) refl

pub lookup-remove_file_same : (p : FilePath) (fs : FileTree) → lookup p (remove_file p fs) ≡ none
unfolding lookup remove_file
lookup-remove_file_same p [] = refl
lookup-remove_file_same p ((q, n) ∷ fs) = elim (Bool-cases (eq_path q p)) [
  | inl e ↦ rw e (lookup-remove_file_same p fs)
  | inr e ↦ rw e (rw e (lookup-remove_file_same p fs))
]

pub lookup-remove_file_other :
    (p q : FilePath) (fs : FileTree)
    → eq_path q p ≡ false
    → lookup p (remove_file q fs) ≡ lookup p fs
unfolding lookup remove_file
lookup-remove_file_other p q [] h = refl
lookup-remove_file_other p q ((r, n) ∷ fs) h = elim (Bool-cases (eq_path r q)) [
  | inl e ↦
      let other : eq_path r p ≡ false =
        subst (λ z. eq_path z p ≡ false) (sym (eq_path-same r q e)) h in
      rw e (rw other (lookup-remove_file_other p q fs h))
  | inr e ↦ rw e (ap (λ z. if eq_path r p then some n else z) (lookup-remove_file_other p q fs h))
]

pub lookup-put_same : (p : FilePath) (n : TreeNode) (fs : FileTree) → lookup p (put p n fs) ≡ some n
unfolding put lookup
lookup-put_same p n fs = rw (eq_path_refl p) refl

pub lookup-put_other :
    (p q : FilePath) (n : TreeNode) (fs : FileTree)
    → eq_path q p ≡ false
    → lookup p (put q n fs) ≡ lookup p fs
unfolding put lookup
lookup-put_other p q n fs h = rw h (lookup-remove_file_other p q fs h)

-- the bytes of a node, and of a tree
abbrev pub size : TreeNode → ℕ
size folder = 0
size (file c) = length c

abbrev size_there : Option TreeNode → ℕ
size_there none = 0
size_there (some n) = size n

unfoldable pub bytes_of : FileTree → ℕ
bytes_of [] = 0
bytes_of ((p, n) ∷ fs) = size n + bytes_of fs

pub bytes_of-remove_file :
    (p : FilePath) (fs : FileTree) → bytes_of (remove_file p fs) ≤ bytes_of fs
unfolding bytes_of remove_file
bytes_of-remove_file p [] = omega arith
bytes_of-remove_file p ((q, n) ∷ fs) = elim (Bool-cases (eq_path q p)) [
  | inl e ↦ rw e (omega (arith, bytes_of-remove_file p fs))
  | inr e ↦ rw e (omega (arith, bytes_of-remove_file p fs))
]

pub bytes_of-put :
    (p : FilePath) (n : TreeNode) (fs : FileTree) → bytes_of (put p n fs) ≤ size n + bytes_of fs
unfolding bytes_of put
bytes_of-put p n fs = omega (arith, bytes_of-remove_file p fs)

-- a node that is taken away leaves its bytes free
pub bytes_of-take :
    (p : FilePath) (n : TreeNode) (fs : FileTree)
    → lookup p fs ≡ some n
    → bytes_of (remove_file p fs) + size n ≤ bytes_of fs
unfolding bytes_of remove_file lookup
bytes_of-take p n [] h = absurd (cc)
bytes_of-take p n ((q, m) ∷ fs) h = elim (Bool-cases (eq_path q p)) [
  | inl e ↦
      let found : ◌≡◌ {A = Option TreeNode} (some m) (some n) = rw e at h in
      rw e (omega (arith, bytes_of-remove_file p fs, ap size_there found))
  | inr e ↦
      let rest : lookup p fs ≡ some n = rw e at h in rw e (omega (arith, bytes_of-take p n fs rest))
]

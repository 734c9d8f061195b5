-- ===== src/FullLog/Bounds.antt =====
-- What the caps keep: a bounded suffix that starts on a line where the text has one.
use mathlib.Core.List.{append_assoc}
use native.Mathlib.Nat.{le_trans}
use encode_system.Prelude.{
  ℕ, zero, suc, ◌∙◌, ◌-◌, ◌≤◌, ◌≡◌, refl, ap, ◌⊎◌, inl, inr, List, [], ◌∷◌, ◌++◌, none, some, arith,
  ◌==◌, leb, leb→le, ◌<◌, Bool-cases, Option-cases, length, drop, length-append, length-drop,
}
use encode_system.FullLog.{
  newline, after_newline, is_continuation, skip_continuation, truncation_marker, or_whole,
  kept_tail, cap_log, tail_on_line,
}

-- `rest` is a suffix of `whole`
abbrev pub IsSuffix : List ℕ → List ℕ → Type 0
IsSuffix rest whole = (front : List ℕ) × (front ++ rest ≡ whole)

IsSuffix-refl : (xs : List ℕ) → IsSuffix xs xs
IsSuffix-refl xs = ([], refl)

IsSuffix-trans : (xs ys zs : List ℕ) → IsSuffix xs ys → IsSuffix ys zs → IsSuffix xs zs
IsSuffix-trans xs ys zs (a, p) (b, q) = (b ++ a, append_assoc b a xs ∙ ap (λ t. b ++ t) p ∙ q)

IsSuffix-drop : (n : ℕ) (xs : List ℕ) → IsSuffix (drop n xs) xs
IsSuffix-drop zero xs = IsSuffix-refl xs
IsSuffix-drop (suc n) [] = IsSuffix-refl []
IsSuffix-drop (suc n) (x ∷ xs) = let (a, p) = IsSuffix-drop n xs in (x ∷ a, ap (λ t. x ∷ t) p)

IsSuffix-skip_continuation : (xs : List ℕ) → IsSuffix (skip_continuation xs) xs
unfolding skip_continuation
IsSuffix-skip_continuation [] = IsSuffix-refl []
IsSuffix-skip_continuation (x ∷ xs) = elim (Bool-cases (is_continuation x)) [
  | inl e ↦ let (a, p) = IsSuffix-skip_continuation xs in rw e (x ∷ a, ap (λ t. x ∷ t) p)
  | inr e ↦ rw e (IsSuffix-refl (x ∷ xs))
]

-- what stands before the rest that `after_newline` finds ends in a newline, and holds no other
after_newline-some :
    (xs : List ℕ) {rest : List ℕ}
    → after_newline xs ≡ some rest
    → (line : List ℕ) × (line ++ newline ∷ rest ≡ xs) × (after_newline line ≡ none)
unfolding after_newline
after_newline-some [] h = cc
after_newline-some (x ∷ xs) h = elim (Bool-cases (x == newline)) [
  | inl e ↦ ([], ground arith, refl)
  | inr e ↦
      let (line, p, q) = after_newline-some xs (rw e at h) in (x ∷ line, ap (λ t. x ∷ t) p, rw e q)
]

-- the result of the line cut is a suffix of what it cuts
IsSuffix-or_whole : (xs : List ℕ) → IsSuffix (or_whole xs (after_newline xs)) xs
IsSuffix-or_whole xs = elim (Option-cases (after_newline xs)) [
  | inl e ↦ rw e (IsSuffix-refl xs)
  | inr (rest, e) ↦
      let (line, p, q) = after_newline-some xs e in
      rw e (line ++ newline ∷ [], append_assoc line (newline ∷ []) rest ∙ p)
]

IsSuffix-length : (xs ys : List ℕ) → IsSuffix xs ys → length xs ≤ length ys
IsSuffix-length xs ys (a, p) = omega (arith, length-append a xs, ap length p)

abbrev last_bytes : ℕ → List ℕ → List ℕ
last_bytes cap log = drop (length log - cap) log

length-last_bytes : (cap : ℕ) (log : List ℕ) → length (last_bytes cap log) ≤ cap
length-last_bytes cap log = omega (arith, length-drop (length log - cap) log)

-- The kept body is a suffix of the log and no longer than the cap.
pub kept_tail_lem :
    (cap : ℕ) (log : List ℕ) → IsSuffix (kept_tail cap log) log × (length (kept_tail cap log) ≤ cap)
unfolding kept_tail
kept_tail_lem cap log =
    let tail = last_bytes cap log in
    let a = IsSuffix-skip_continuation tail in
    let b = IsSuffix-or_whole (skip_continuation tail) in
    let c = IsSuffix-drop (length log - cap) log in
    let ab = IsSuffix-trans _ _ tail b a in
    (
      IsSuffix-trans _ tail log ab c,
      le_trans (IsSuffix-length _ tail ab) (length-last_bytes cap log),
    )

-- A log within the cap is stored as it is; a longer one as the marker and a body that is a suffix of the
-- log, no longer than the cap.
pub cap_log_bounded :
    (cap : ℕ) (log : List ℕ)
    → ((length log ≤ cap) × (cap_log cap log ≡ log))
      ⊎ ((cap < length log)
          × ((body : List ℕ) × (cap_log cap log ≡ truncation_marker ++ body)
              × IsSuffix body log
              × (length body ≤ cap)))
unfolding cap_log
cap_log_bounded cap log = elim (Bool-cases (leb (length log) cap)) [
  | inl e ↦ inl (leb→le _ _ e, rw e refl)
  | inr e ↦
      let (suffix, short) = kept_tail_lem cap log in
      inr (ground arith, (kept_tail cap log, rw e refl, suffix, short))
]

-- The cut of the agent-log tail keeps a suffix within the cap.
pub tail_on_line_bounded :
    (cap : ℕ) (out : List ℕ)
    → IsSuffix (tail_on_line cap out) out × (length (tail_on_line cap out) ≤ cap)
unfolding tail_on_line
tail_on_line_bounded cap out = elim (Bool-cases (leb (length out) cap)) [
  | inl e ↦ rw e (IsSuffix-refl out, leb→le _ _ e)
  | inr e ↦
      let tail = last_bytes cap out in
      let a = IsSuffix-or_whole tail in
      rw e (
        IsSuffix-trans _ tail out a (IsSuffix-drop (length out - cap) out),
        le_trans (IsSuffix-length _ tail a) (length-last_bytes cap out),
      )
]

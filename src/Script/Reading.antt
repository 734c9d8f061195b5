-- ===== src/Script/Reading.antt =====
-- A quoted value is read back as it was, by the quoting rules that the two shells document.
use mathlib.Core.List.{append_assoc}
use encode_system.Prelude.{
  ℕ, ◌≡◌, ◌⊎◌, inl, inr, refl, sym, ap, ◌∙◌, List, [], ◌∷◌, ◌++◌, Bool, true, false, Option, none,
  some, ◌==◌, if◌then◌else◌, arith, Bool-cases, All, ==_iff,
}
use encode_system.FullLog.{newline}
use encode_system.Script.{quote_mark, backslash, replace_quotes, ps_quote, bash_quote}

-- one more character of the value
abbrev pub push : ℕ → Option (List ℕ × List ℕ) → Option (List ℕ × List ℕ)
push c none = none
push c (some (value, rest)) = some (c ∷ value, rest)

-- The state of a reader of a PowerShell literal: inside it, or behind a quote in it.
pub data PsState : Type 0 where
  inside : PsState
  behind : ℕ → PsState

-- The rule for a literal whose opening quote was read: two quotes are one of the value, a single one ends
-- it. `is_quote` says which characters the shell takes for quotes.
unfoldable pub read_ps : (ℕ → Bool) → PsState → List ℕ → Option (List ℕ × List ℕ)
read_ps is_quote inside [] = none
read_ps is_quote inside (c ∷ cs) =
    let text = read_ps is_quote inside cs in
    let quote = read_ps is_quote (behind c) cs in if is_quote c then quote else push c text
read_ps is_quote (behind q) [] = some ([], [])
read_ps is_quote (behind q) (c ∷ cs) =
    let text = read_ps is_quote inside cs in if is_quote c then push q text else some ([], c ∷ cs)

-- what follows a literal does not go on with a quote
abbrev pub NoQuote : (ℕ → Bool) → List ℕ → Type 0
NoQuote is_quote [] = Unit {0}
NoQuote is_quote (c ∷ cs) = is_quote c ≡ false

read_ps-end :
    (is_quote : ℕ → Bool) (rest : List ℕ)
    → NoQuote is_quote rest
    → read_ps is_quote (behind quote_mark) rest ≡ some ([], rest)
unfolding read_ps
read_ps-end is_quote [] h = refl
read_ps-end is_quote (c ∷ cs) h = rw h refl

read_ps-body :
    (is_quote : ℕ → Bool) (s rest : List ℕ)
    → is_quote quote_mark ≡ true
    → All (λ (c : ℕ). (is_quote c ≡ false) ⊎ (c ≡ quote_mark)) s
    → NoQuote is_quote rest
    → read_ps is_quote inside (replace_quotes (quote_mark ∷ quote_mark ∷ []) s ++ quote_mark ∷ rest)
      ≡ some (s, rest)
unfolding read_ps replace_quotes
read_ps-body is_quote [] rest q h e = rw q (read_ps-end is_quote rest e)
read_ps-body is_quote (c ∷ s) rest q (h, hs) e =
    let more = read_ps-body is_quote s rest q hs e in
    elim (Bool-cases (c == quote_mark)) [
      | inl m ↦ rw m (
          rw q (
            ap (push quote_mark) more
            ∙ ap (λ d. some (d ∷ s, rest)) (sym ((==_iff c quote_mark).0 m))))
      | inr m ↦ elim h [
        | inl n ↦ rw m (rw n (ap (push c) more))
        | inr n ↦ absurd (ground (arith, m, n))
      ]
    ]

-- The state of a reader of a word in bash.
pub data BashState : Type 0 where
  plain quoted escaped : BashState

-- The rule for a word: quotes open and close a part that is taken as it is, a backslash outside of them
-- takes the next character as it is, and a newline outside of them ends the word.
unfoldable pub read_bash : BashState → List ℕ → Option (List ℕ × List ℕ)
read_bash plain [] = some ([], [])
read_bash plain (c ∷ cs) =
    let a = read_bash quoted cs in
    let b = read_bash escaped cs in
    let d = read_bash plain cs in
    if c == quote_mark
    then a
    else if c == backslash
    then b
    else if c == newline
    then some ([], c ∷ cs)
    else push c d
read_bash quoted [] = none
read_bash quoted (c ∷ cs) =
    let a = read_bash plain cs in
    let b = read_bash quoted cs in if c == quote_mark then a else push c b
read_bash escaped [] = none
read_bash escaped (c ∷ cs) = push c (read_bash plain cs)

read_bash-body :
    (s rest : List ℕ)
    → read_bash quoted (
        replace_quotes (quote_mark ∷ backslash ∷ quote_mark ∷ quote_mark ∷ []) s
        ++ quote_mark ∷ newline ∷ rest)
      ≡ some (s, newline ∷ rest)
unfolding read_bash replace_quotes
read_bash-body [] rest = refl
read_bash-body (c ∷ s) rest =
    let more = read_bash-body s rest in
    elim (Bool-cases (c == quote_mark)) [
      | inl m ↦ rw m (
          ap (push quote_mark) more
          ∙ ap (λ d. some (d ∷ s, newline ∷ rest)) (sym ((==_iff c quote_mark).0 m)))
      | inr m ↦ rw m (rw m (ap (push c) more))
    ]

-- On a line of its own, bash reads a quoted value back as it was, whatever characters are in it, and
-- nothing of it is left to be run.
pub read_bash-bash_quote :
    (s rest : List ℕ) → read_bash plain (bash_quote s ++ newline ∷ rest) ≡ some (s, newline ∷ rest)
unfolding bash_quote read_bash
read_bash-bash_quote s rest =
    ap (read_bash quoted) (
      append_assoc (replace_quotes (quote_mark ∷ backslash ∷ quote_mark ∷ quote_mark ∷ []) s)
        (quote_mark ∷ []) (newline ∷ rest))
    ∙ read_bash-body s rest

-- A PowerShell that takes ' for a quote reads the literal of a quoted value back as it was, when no other
-- character of the value counts as a quote for it, and none comes directly behind the literal.
pub read_ps-ps_quote :
    (is_quote : ℕ → Bool) (s rest : List ℕ)
    → is_quote quote_mark ≡ true
    → All (λ (c : ℕ). (is_quote c ≡ false) ⊎ (c ≡ quote_mark)) s
    → NoQuote is_quote rest
    → (body : List ℕ) × (ps_quote s ++ rest ≡ quote_mark ∷ body)
      × (read_ps is_quote inside body ≡ some (s, rest))
unfolding ps_quote
read_ps-ps_quote is_quote s rest q h e =
    let text = replace_quotes (quote_mark ∷ quote_mark ∷ []) s in
    (
      text ++ quote_mark ∷ rest,
      ap (λ t. quote_mark ∷ t) (append_assoc text (quote_mark ∷ []) rest),
      read_ps-body is_quote s rest q h e,
    )

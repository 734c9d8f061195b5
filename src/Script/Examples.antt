-- ===== src/Script/Examples.antt =====
-- Values with quotes in them.
use encode_system.Prelude.{ℕ, ◌≡◌, refl, List, [], ◌∷◌, ◌++◌, some, inl, inr, ◌==◌}
use encode_system.FullLog.{newline}
use encode_system.Script.{quote_mark, ps_quote, bash_quote}
use encode_system.Script.Reading.{
  plain, inside, read_bash, read_ps, read_bash-bash_quote, read_ps-ps_quote,
}

-- it's
abbrev value : List ℕ
value = 105 ∷ 116 ∷ 39 ∷ 115 ∷ []

read_bash-bash_quote_example :
    read_bash plain (bash_quote value ++ newline ∷ 120 ∷ []) ≡ some (value, newline ∷ 120 ∷ [])
read_bash-bash_quote_example = read_bash-bash_quote value (120 ∷ [])

-- a shell whose only quote is ', and a literal before a semicolon
read_ps-ps_quote_example :
    (body : List ℕ) × (ps_quote value ++ 59 ∷ [] ≡ quote_mark ∷ body)
    × (read_ps (λ c. c == quote_mark) inside body ≡ some (value, 59 ∷ []))
read_ps-ps_quote_example =
    read_ps-ps_quote (λ c. c == quote_mark) value (59 ∷ []) refl
      (inl refl, (inl refl, (inr refl, (inl refl, tt)))) refl

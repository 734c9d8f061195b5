-- ===== src/Render/Texts.antt =====
-- Quoting, identifiers, comments and parameters of both dialects (backend/internal/flow: render.go,
-- dialect.go, dialect_bash.go), over native texts.
use Prim.Native.Char.{code}
use Prim.Native.String.{String, ◌++◌ as ◌++ˢ◌}
use encode_system.Prelude.{
  ℕ, zero, suc, ◌/◌, ◌%◌, List, [], ◌∷◌, Bool, true, false, ◌&&◌, ◌||◌, ◌==◌, ltb, leb, ◌=s=◌,
  if◌then◌else◌,
}
use encode_system.Render.{Step, StepTemplate}

-- strings.ReplaceAll(s, "'", by)
unfoldable pub replace_marks : String → String → String
replace_marks by String.[] = ""
replace_marks by (String.◌∷◌ c s) =
    let rest = replace_marks by s in if code c == 39 then by ++ˢ rest else String.◌∷◌ c rest

unfoldable pub ps_quote_text : String → String
unfolding replace_marks
ps_quote_text s = "'" ++ˢ replace_marks "''" s ++ˢ "'"

unfoldable pub bash_quote_text : String → String
unfolding replace_marks
bash_quote_text s = "'" ++ˢ replace_marks "'\\''" s ++ˢ "'"

-- CR and LF to spaces: psComment and stripNewlines
unfoldable pub strip_newlines : String → String
strip_newlines String.[] = ""
strip_newlines (String.◌∷◌ c s) =
    let rest = strip_newlines s in
    if code c == 13 || code c == 10 then " " ++ˢ rest else String.◌∷◌ c rest

-- a to z, 0 to 9 and _
abbrev pub is_ident_char : ℕ → Bool
is_ident_char c = (leb 97 c && leb c 122) || (leb 48 c && leb c 57) || c == 95

unfoldable pub keep_ident : String → String
keep_ident String.[] = ""
keep_ident (String.◌∷◌ c s) =
    let rest = keep_ident s in if is_ident_char (code c) then String.◌∷◌ c rest else rest

-- psSafeIdent and safeIdentAlpha
unfoldable pub safe_ident_alpha : (String → String) → String → String
unfolding keep_ident
safe_ident_alpha to_lower s = keep_ident (to_lower s)

-- %d of a number, on fuel: a number has at most as many digits as its successor counts
abbrev digit : ℕ → String
digit n =
    if n == 0
    then "0"
    else if n == 1
    then "1"
    else if n == 2
    then "2"
    else if n == 3
    then "3"
    else if n == 4
    then "4"
    else if n == 5
    then "5"
    else if n == 6
    then "6"
    else if n == 7
    then "7"
    else if n == 8
    then "8"
    else "9"

unfoldable pub digits : ℕ → ℕ → String
digits zero n = ""
digits (suc fuel) n = elim (ltb n 10) [
  | true ↦ digit n
  | false ↦ digits fuel (n / 10) ++ˢ digit (n % 10)
]

abbrev pub decimal : ℕ → String
decimal n = digits (suc n) n

-- `st.Params[pd.Key]`, empty if the flow omits it
unfoldable pub param_value : String → List (String × String) → String
param_value key [] = ""
param_value key ((k, v) ∷ rest) = if k =s= key then v else param_value key rest

-- strings.Join(parts, "; ")
abbrev join_parts : List String → String
join_parts [] = ""
join_parts (p ∷ []) = p
join_parts (p ∷ q ∷ ps) = p ++ˢ "; " ++ˢ join_parts (q ∷ ps)

module _ (to_lower : String → String) where
  unfoldable pub param_parts : List (String × String) → List String → List String
  unfolding safe_ident_alpha ps_quote_text param_value
  param_parts values [] = []
  param_parts values (k ∷ ks) =
      let rest = param_parts values ks in
      let key = safe_ident_alpha to_lower k in
      if key =s= ""
      then rest
      else (" " ++ˢ key ++ˢ " = " ++ˢ ps_quote_text (param_value k values)) ∷ rest

  unfoldable pub params_literal : Step → StepTemplate → String
  unfolding param_parts
  params_literal st t = join_parts (param_parts st.params t.params) ++ˢ " "

  unfoldable pub bash_params : List (String × String) → List String → String
  unfolding safe_ident_alpha bash_quote_text param_value
  bash_params values [] = ""
  bash_params values (k ∷ ks) =
      let rest = bash_params values ks in
      let key = safe_ident_alpha to_lower k in
      if key =s= ""
      then rest
      else "    " ++ˢ key ++ˢ "=" ++ˢ bash_quote_text (param_value k values) ++ˢ "\n" ++ˢ rest

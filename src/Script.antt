-- ===== src/Script.antt =====
-- The quoting of values in rendered scripts: psQuote of backend/internal/flow/render.go and
-- BashDialect.Quote of backend/internal/flow/dialect_bash.go. A text is its list of characters.
pub mod Reading
mod Examples
use encode_system.Prelude.{ℕ, List, [], ◌∷◌, ◌++◌, ◌==◌, if◌then◌else◌}

-- ' and \
abbrev pub quote_mark : ℕ
quote_mark = 39

abbrev pub backslash : ℕ
backslash = 92

-- strings.ReplaceAll(s, "'", by)
unfoldable pub replace_quotes : List ℕ → List ℕ → List ℕ
replace_quotes by [] = []
replace_quotes by (c ∷ cs) =
    let rest = replace_quotes by cs in if c == quote_mark then by ++ rest else c ∷ rest

-- '' for each '
unfoldable pub ps_quote : List ℕ → List ℕ
unfolding replace_quotes
ps_quote s = quote_mark ∷ replace_quotes (quote_mark ∷ quote_mark ∷ []) s ++ quote_mark ∷ []

-- '\'' for each '
unfoldable pub bash_quote : List ℕ → List ℕ
unfolding replace_quotes
bash_quote s =
    quote_mark ∷ replace_quotes (quote_mark ∷ backslash ∷ quote_mark ∷ quote_mark ∷ []) s
    ++ quote_mark ∷ []

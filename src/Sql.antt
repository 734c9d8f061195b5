-- ===== src/Sql.antt =====
-- The two database backends and the rewriting of queries for Postgres (backend/internal/store/dialect.go).
-- A query is the list of its bytes.
pub mod Placeholders
mod Examples
use Prim.Native.Char.{code}
use encode_system.Prelude.{
  ℕ, zero, suc, ◌+◌, ◌-◌, ◌/◌, ◌%◌, String, List, [], ◌∷◌, ◌++◌, Bool, true, false, ◌&&◌, ◌==◌, ltb,
  if◌then◌else◌, length,
}

-- dialectSQLite and dialectPostgres
pub data SqlDialect : Type 0 where
  sqlite postgres : SqlDialect

-- the bytes of an ASCII constant
abbrev pub bytes : String → List ℕ
bytes String.[] = []
bytes (String.◌∷◌ c s) = code c ∷ bytes s

-- ' and ? and $
abbrev pub quote_byte : ℕ
quote_byte = 39

abbrev pub mark_byte : ℕ
mark_byte = 63

abbrev pub dollar_byte : ℕ
dollar_byte = 36

abbrev pub pg_now_expr : List ℕ
pg_now_expr = bytes "to_char(now() AT TIME ZONE 'utc', 'YYYY-MM-DD HH24:MI:SS')"

abbrev pub sqlite_now_expr : List ℕ
sqlite_now_expr = bytes "datetime('now')"

abbrev pub starts_with : List ℕ → List ℕ → Bool
starts_with [] s = true
starts_with (p ∷ ps) [] = false
starts_with (p ∷ ps) (c ∷ s) = p == c && starts_with ps s

-- strings.ReplaceAll for a text `old` that is not empty; the number counts the bytes of a match that are
-- still to be left out
unfoldable pub replace_all : List ℕ → List ℕ → ℕ → List ℕ → List ℕ
replace_all old by skip [] = []
replace_all old by (suc skip) (c ∷ s) = replace_all old by skip s
replace_all old by zero (c ∷ s) =
    let behind = replace_all old by (length old - 1) s in
    let next = replace_all old by zero s in
    if starts_with old (c ∷ s) then by ++ behind else c ∷ next

unfoldable pub translate_datetime_now : List ℕ → List ℕ
unfolding replace_all
translate_datetime_now sql = replace_all sqlite_now_expr pg_now_expr 0 sql

-- %d, on fuel: a number has at most as many digits as its successor counts
unfoldable pub decimal_bytes : ℕ → ℕ → List ℕ
decimal_bytes zero n = []
decimal_bytes (suc fuel) n =
    let front = decimal_bytes fuel (n / 10) in
    if ltb n 10 then (48 + n) ∷ [] else front ++ (48 + n % 10) ∷ []

-- The loop of rebindPostgres from one byte on, with inQuote and paramIdx. Two quotes in a literal are
-- written together.
unfoldable pub rebind_from : Bool → ℕ → List ℕ → List ℕ
rebind_from in_quote idx [] = []
rebind_from true idx (c ∷ []) = c ∷ []
rebind_from true idx (c ∷ d ∷ s) =
    let escaped = rebind_from true idx s in
    let closed = rebind_from false idx (d ∷ s) in
    let more = rebind_from true idx (d ∷ s) in
    if c == quote_byte then (if d == quote_byte then c ∷ d ∷ escaped else c ∷ closed) else c ∷ more
rebind_from false idx (c ∷ s) =
    let opened = rebind_from true idx s in
    let bound = rebind_from false (suc idx) s in
    let more = rebind_from false idx s in
    if c == quote_byte
    then c ∷ opened
    else if c == mark_byte
    then dollar_byte ∷ decimal_bytes (suc (suc idx)) (suc idx) ++ bound
    else c ∷ more

unfoldable pub rebind_postgres : List ℕ → List ℕ
unfolding rebind_from
rebind_postgres sql = rebind_from false 0 sql

-- Store.q
unfoldable pub dialect_query : SqlDialect → List ℕ → List ℕ
unfolding rebind_postgres translate_datetime_now
dialect_query sqlite sql = sql
dialect_query postgres sql = rebind_postgres (translate_datetime_now sql)

-- the query that insertID sends
abbrev pub insert_query : SqlDialect → List ℕ → List ℕ
insert_query sqlite sql = sql
insert_query postgres sql = dialect_query postgres (sql ++ bytes " RETURNING id")

abbrev pub now_expr : SqlDialect → List ℕ
now_expr sqlite = sqlite_now_expr
now_expr postgres = pg_now_expr

abbrev pub for_update : SqlDialect → List ℕ → List ℕ
for_update sqlite sql = sql
for_update postgres sql = sql ++ bytes " FOR UPDATE"

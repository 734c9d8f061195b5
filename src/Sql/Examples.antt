-- ===== src/Sql/Examples.antt =====
-- Queries of both backends.
use encode_system.Prelude.{ℕ, false, ◌≡◌, refl, List}
use encode_system.Sql.Placeholders.{
  print_pieces, pieces, rebind_postgres-pieces, read_params, in_text, is_bindable, count_up,
  count_placeholders, read_params-rebind_postgres,
}
use encode_system.Sql.{bytes, dialect_query, postgres, rebind_postgres, decimal_bytes}

rebind_test :
    rebind_postgres (bytes "a=? AND b='x''?' AND c=?") ≡ bytes "a=$1 AND b='x''?' AND c=$2"
unfolding rebind_postgres decimal_bytes
rebind_test = refl

now_test :
    dialect_query postgres (bytes "SET t=datetime('now') WHERE id=?")
    ≡ bytes "SET t=to_char(now() AT TIME ZONE 'utc', 'YYYY-MM-DD HH24:MI:SS') WHERE id=$1"
unfolding dialect_query decimal_bytes
now_test = refl

-- two placeholders, and a question mark in a literal with an escaped quote
abbrev query : List ℕ
query = bytes "a=? AND b='x''?' AND c=?"

rebind_postgres-pieces_example : rebind_postgres query ≡ print_pieces 0 (pieces false query)
rebind_postgres-pieces_example = rebind_postgres-pieces query

read_params-rebind_postgres_example :
    read_params in_text (rebind_postgres query)
    ≡ count_up 0 (count_placeholders (pieces false query))
unfolding is_bindable
read_params-rebind_postgres_example = read_params-rebind_postgres query refl

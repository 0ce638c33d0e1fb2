-- ===== src/Tests/Columns.antt =====
-- `_normalize_column_names` at columns that clash.
use mcp_sql_server.Db.Columns.Unique.{Distinct, columns-Distinct}
use mcp_sql_server.Db.Columns.{
  bumped, candidate, column_name, decimal, fresh_name, name_columns, next_name,
  normalize_column_names, rsplit, value,
}
use mcp_sql_server.Common.{
  List, Option, Text, [], all, codes, elem, insert, is_digit, is_space, length, lookup, lstrip,
  none, refl, rstrip, some, strip, text_eq, ◌∷◌, ◌≡◌,
}

abbrev raw : List (Option Text)
raw = some (codes "a_2") ∷ some (codes "a") ∷ some (codes " a ") ∷ none ∷ []

columns-Distinct_example :
    (names : List Text) × (normalize_column_names raw ≡ some names)
    × Distinct names
    × (length names ≡ length raw)
columns-Distinct_example = columns-Distinct raw

-- The second `a` would be `a_2`, which is taken.
clash :
    normalize_column_names raw ≡ some (codes "a_2" ∷ codes "a" ∷ codes "a_3" ∷ codes "col_4" ∷ [])
unfolding normalize_column_names name_columns column_name candidate fresh_name next_name bumped
    rsplit decimal value all is_digit strip lstrip rstrip is_space insert lookup text_eq elem
clash = refl

-- ===== src/Tools/Statements/Collect/Failures.antt =====
-- Where the collection of the metrics fails.
use mcp_sql_server.Common.{
  Error, List, Outcome, Text, [], false, ok, raise, true, ℤ, ◌>>=◌, ◌≡◌, ◌⊎◌,
}
use mcp_sql_server.Tools.Statements.{Floats, Row, normalize_top_statement_rows}
use mcp_sql_server.Tools.Statements.Collect.{
  Exceptions, Source, ask, dmv_fallback, is_query_store_unavailable, query_store, unavailable,
}
use mcp_sql_server.Tools.Catalogue.Statements.{top_statements_query_store_query}

module _ {F D : Type 0} (floats : Floats F) (exceptions : Exceptions)
    (execute : Text → ℤ → D → Outcome (List (Row F)) × D) where
  abbrev pub first_answer : ℤ → ℤ → D → Outcome (List (Row F)) × D
  first_answer top_n minutes d =
      ask floats exceptions execute (top_statements_query_store_query top_n minutes) top_n d

  -- Where the rows of the statements come from, by what the query of the Query Store came to: from
  -- it; or, if its error says that the store is unavailable, from the DMV, or from nowhere.
  abbrev pub ComesFrom : Outcome (List (Row F)) → List (Row F) → Source → Type 0
  ComesFrom first rows source =
      ((first ≡ ok rows) × (source ≡ query_store))
      ⊎ ((e : Error) × (first ≡ raise e)
          × (is_query_store_unavailable exceptions e ≡ true)
          × ((source ≡ dmv_fallback) ⊎ ((source ≡ unavailable) × (rows ≡ []))))

  -- The error of the first query, if it says anything else; else rows, and where they come from.
  abbrev Collected : Outcome (List (Row F)) → Outcome (List (Row F) × Source) → Type 0
  Collected first o =
      ((e : Error) × (first ≡ raise e)
        × (is_query_store_unavailable exceptions e ≡ false)
        × (o ≡ raise e))
      ⊎ ((rows : List (Row F)) × (source : Source) × (o ≡ ok (rows, source))
          × ComesFrom first rows source)

  -- What the normalisation and the objects make of the statements.
  abbrev Completed :
      Outcome (List (Row F)) → Outcome (List (Row F) × List (Row F) × Source) → Type 0
  Completed first o =
      ((e : Error) × (first ≡ raise e)
        × (is_query_store_unavailable exceptions e ≡ false)
        × (o ≡ raise e))
      ⊎ ((rows : List (Row F)) × (objects : List (Row F)) × (source : Source) × ComesFrom first rows
            source
          × (o ≡ (
              normalize_top_statement_rows floats rows >>= (λ stmts. ok (stmts, objects, source)))))

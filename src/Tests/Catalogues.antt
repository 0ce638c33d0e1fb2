-- ===== src/Tests/Catalogues.antt =====
-- The queries of the catalogue, with numbers in range and names that hold quotes.
use mcp_sql_server.Tools.Catalogue.Allowed.{Passes, catalogue-Passes, fixed_queries, sized}
use mcp_sql_server.Tools.Catalogue.Literals.{
  dotted, histogram_end, histogram_head, histogram_literals, histogram_middle, quote, read_literal,
}
use mcp_sql_server.Tools.Catalogue.Statistics.{statistics_histogram_query}
use mcp_sql_server.Tools.Catalogue.Statements.{top_statements_query_store_query}
use mcp_sql_server.Common.{Each, Text, arith, codes, ok, pos, some, ◌++◌, ◌∷◌, ◌≡◌}

abbrev name : Text
name = codes "x'); DROP TABLE t --"

catalogue-Passes_example :
    Each Passes (sized (pos 200))
    × Passes (top_statements_query_store_query (pos 200) (pos 60))
    × Each Passes fixed_queries
    × Passes (ok (statistics_histogram_query (codes "dbo") name (codes "s")))
catalogue-Passes_example =
    catalogue-Passes (pos 200) (pos 60) (codes "dbo") name (codes "s") (omega arith) (omega arith)
      (omega arith) (omega arith)

histogram_literals_example :
    (one two : Text) × (statistics_histogram_query (codes "dbo") name (codes "s")
      ≡ histogram_head ++ quote ∷ one)
    × (read_literal one ≡ some (dotted (codes "dbo") name, histogram_middle ++ quote ∷ two))
    × (read_literal two ≡ some (codes "s", histogram_end))
histogram_literals_example = histogram_literals (codes "dbo") name (codes "s")

-- ===== src/Tools/Statements/Advice.antt =====
-- tools/sql_tools.py: `_recommend_top_statement_actions`. A finding and its recommendation are added
-- together, to the ends of their lists: the model keeps the pairs.
use mcp_sql_server.Tools.Statements.Values.{
  cell_at_least, cell_is_positive, fragment, or_zero, shown_cell, shown_grouped_of, shown_ratio,
  shown_thousandth_of,
}
use mcp_sql_server.Tools.Statements.{Floats, Row, each_of, get, keep_where}
use mcp_sql_server.Tools.Reports.{Finding, Recommendation, build_finding, build_recommendation}
use mcp_sql_server.Common.{
  Bool, List, Message, Outcome, Text, [], codes, false, if◌then◌else◌, int, length, lit, lookup,
  not, ok, pos, str, take, text_of, true, ◌++◌, ◌>>=◌, ◌∷◌,
}

abbrev pub duration_key : Text
duration_key = codes "weighted_avg_duration_us"

abbrev pub execution_key : Text
execution_key = codes "execution_count"

abbrev pub ratio_key : Text
ratio_key = codes "scan_ratio"

abbrev pub sql_key : Text
sql_key = codes "query_sql_text"

abbrev pub row_count_key : Text
row_count_key = codes "row_count"

module _ {F : Type 0} (floats : Floats F) where
  -- The five kinds of rows. Bounds are in hundredths.
  unfoldable pub is_slow : Row F → Outcome Bool
  unfolding lookup cell_at_least
  is_slow r = cell_at_least floats 500000000 (get floats duration_key r)

  unfoldable pub is_medium : Row F → Outcome Bool
  unfolding lookup cell_at_least
  is_medium r = do
    low ← cell_at_least floats 100000000 (get floats duration_key r)
    high ← (if low then cell_at_least floats 500000000 (get floats duration_key r) else ok true)
    ok (not high)

  unfoldable pub is_frequent : Row F → Outcome Bool
  unfolding lookup cell_at_least
  is_frequent r = cell_at_least floats 1000000 (get floats execution_key r)

  unfoldable pub is_scanned : Row F → Outcome Bool
  unfolding lookup cell_at_least cell_is_positive
  is_scanned r = do
    high ← cell_at_least floats 80 (get floats ratio_key r)
    if high then cell_is_positive floats (get floats row_count_key r) else ok false

  unfoldable pub is_large : Row F → Outcome Bool
  unfolding lookup cell_at_least
  is_large r = cell_at_least floats 1000000000 (get floats row_count_key r)

  abbrev Advice : Type 0
  Advice = Outcome (List (Finding (Row F) × Recommendation))

  abbrev pub both_of :
      Outcome (Finding (Row F))
      → Outcome Recommendation
      → Outcome (List (Finding (Row F) × Recommendation))
  both_of finding recommendation = do f ← finding; r ← recommendation; ok ((f, r) ∷ [])

  -- A row of the evidence: some of its values, and the fragment of its statement.
  unfoldable pub evidence_of : (Row F → Row F) → Row F → Outcome (Row F)
  unfolding fragment
  evidence_of values r = do
    sql_fragment ← fragment floats (get floats sql_key r)
    ok (values r ++ (codes "sql_fragment", sql_fragment) ∷ [])

  abbrev pub duration_values : Row F → Row F
  duration_values r =
      (codes "query_id", get floats (codes "query_id") r)
      ∷ (codes "duration_us", get floats duration_key r)
      ∷ (codes "execution_count", get floats execution_key r)
      ∷ []

  abbrev pub execution_values : Row F → Row F
  execution_values r =
      (codes "query_id", get floats (codes "query_id") r)
      ∷ (codes "execution_count", get floats execution_key r)
      ∷ []

  abbrev pub rewrite_values : Row F → Row F
  rewrite_values r =
      (codes "query_id", get floats (codes "query_id") r)
      ∷ (codes "duration_us", or_zero floats (get floats duration_key r))
      ∷ []

  abbrev evidence : (Row F → Row F) → List (Row F) → Outcome (List (Row F))
  evidence values rows = each_of (evidence_of values) (take 10 rows)

  abbrev table_of : Row F → Message
  table_of r =
      str (shown_cell floats (get floats (codes "schema_name") r))
      ∷ lit "."
      ∷ str (shown_cell floats (get floats (codes "table_name") r))
      ∷ []

  -- Each of the five parts, on the rows of its kind.
  unfoldable pub duration_advice : List (Row F) → Advice
  unfolding build_finding build_recommendation evidence_of each_of or_zero shown_cell
      shown_thousandth_of
  duration_advice [] = ok []
  duration_advice (top ∷ rest) = do
    rows ← evidence duration_values (top ∷ rest)
    milliseconds ← shown_thousandth_of floats (or_zero floats (get floats duration_key top))
    both_of
        (build_finding (codes "TOP_STMT_HIGH_DURATION") (codes "high")
          (text_of "Long-running statements detected")
          (lit "Top statement averaged "
            ∷ str milliseconds
            ∷ lit " ms and executed "
            ∷ str (shown_cell floats (or_zero floats (get floats execution_key top)))
            ∷ lit " times."
            ∷ [])
          rows)
        (build_recommendation (codes "high")
          (codes
            "Review execution plans for the listed high-duration statements. Consider index additions, query rewrites, or partitioning to reduce scan cost.")
          (codes
            "Statements exceeding 5 seconds average duration indicate potential I/O or plan inefficiencies."))

  unfoldable pub execution_advice : List (Row F) → Advice
  unfolding build_finding build_recommendation evidence_of each_of or_zero shown_cell
      shown_thousandth_of
  execution_advice [] = ok []
  execution_advice (top ∷ rest) = do
    rows ← evidence execution_values (top ∷ rest)
    both_of
        (build_finding (codes "TOP_STMT_HIGH_EXECUTION_COUNT") (codes "medium")
          (text_of "High-frequency statements identified")
          (lit "Top statement executed "
            ∷ str (shown_cell floats (or_zero floats (get floats execution_key top)))
            ∷ lit " times."
            ∷ [])
          rows)
        (build_recommendation (codes "medium")
          (codes
            "Consider parameterized queries for high-frequency statements. Evaluate plan guide or OPTIMIZE FOR hints where parameter sniffing causes variance.")
          (codes
            "Thousands of executions can amplify small inefficiencies into measurable resource pressure."))

  abbrev pub scan_severity : Bool → Text
  scan_severity very_high = if very_high then codes "high" else codes "medium"

  -- The second test of the ratio, for the priority, is that of the severity: the ratio of a row of
  -- this kind is not missing.
  unfoldable pub scan_advice : List (Row F) → Advice
  unfolding build_finding build_recommendation cell_at_least shown_cell shown_ratio
  scan_advice [] = ok []
  scan_advice (top ∷ rest) = do
    very_high ← cell_at_least floats 90 (get floats ratio_key top)
    ratio ← shown_ratio floats (get floats ratio_key top)
    both_of
        (build_finding (codes "TOP_STMT_HIGH_SCAN_PRESSURE") (scan_severity very_high)
          (text_of "Objects with dominant scan access patterns")
          (lit "Table " ∷ table_of top ++ lit " has " ∷ str ratio ∷ lit " scan ratio." ∷ [])
          (take 10 (top ∷ rest)))
        (build_recommendation (scan_severity very_high)
          (codes
            "Add targeted nonclustered indexes on scan-heavy tables. Evaluate covering indexes for the correlated high-duration statements above.")
          (codes
            "Scan-dominated workloads can benefit from indexes that satisfy predicates and reduce I/O."))

  unfoldable pub large_advice : List (Row F) → Advice
  unfolding build_finding build_recommendation or_zero shown_cell shown_grouped_of
  large_advice [] = ok []
  large_advice (top ∷ rest) = do
    rows ← shown_grouped_of floats (or_zero floats (get floats row_count_key top))
    both_of
        (build_finding (codes "TOP_STMT_LARGE_TABLE_CANDIDATE") (codes "medium")
          (text_of "Large tables identified as partition candidates")
          (lit "Table " ∷ table_of top ++ lit " has " ∷ str rows ∷ lit " rows." ∷ [])
          (take 10 (top ∷ rest)))
        (build_recommendation (codes "medium")
          (codes
            "Evaluate table partitioning strategy for tables exceeding 10M rows. Consider partition-aligned indexes and sliding-window maintenance.")
          (codes
            "Partitioning reduces scan range and facilitates faster data archival/retention for large tables."))

  unfoldable pub rewrite_advice : List (Row F) → Advice
  unfolding build_finding build_recommendation evidence_of each_of or_zero shown_cell
      shown_thousandth_of
  rewrite_advice [] = ok []
  rewrite_advice (top ∷ rest) = do
    rows ← evidence rewrite_values (top ∷ rest)
    both_of
        (build_finding (codes "TOP_STMT_REWRITE_CANDIDATE") (codes "medium")
          (text_of "Medium-duration statements may benefit from rewrites or hints")
          (int (pos (length (top ∷ rest)))
            ∷ lit " statements fall in the 1s–5s average-duration range."
            ∷ [])
          rows)
        (build_recommendation (codes "medium")
          (codes
            "Review query structure for medium-duration statements. Consider CTE or temp-table rewrites, query hints (HASH/LOOP/MERGE JOIN, MAXDOP, RECOMPILE) where plan instability is observed.")
          (codes
            "Statements in the 1–5 second range often respond well to targeted tuning without schema changes."))

  -- `_recommend_top_statement_actions`
  unfoldable pub recommend_top_statement_actions : List (Row F) → List (Row F) → Advice
  unfolding keep_where duration_advice execution_advice scan_advice large_advice rewrite_advice
      is_slow is_medium is_frequent is_scanned is_large
  recommend_top_statement_actions statement_rows object_rows = do
    high_duration ← keep_where is_slow statement_rows
    medium_duration ← keep_where is_medium statement_rows
    high_exec ← keep_where is_frequent statement_rows
    slow ← duration_advice high_duration
    frequent ← execution_advice high_exec
    high_scan ← keep_where is_scanned object_rows
    large_tables ← keep_where is_large object_rows
    scanned ← scan_advice high_scan
    large ← large_advice large_tables
    medium ← rewrite_advice medium_duration
    ok (slow ++ frequent ++ scanned ++ large ++ medium)

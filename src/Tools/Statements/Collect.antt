-- ===== src/Tools/Statements/Collect.antt =====
-- tools/sql_tools.py: `_collect_top_statement_metrics`, and what `_top_statements` makes of it. The
-- database is a parameter: `execute_catalog_query`, whose other arguments are fixed, on a state `D`;
-- and of an exception its `sqlstate`, "" if it has none, and its text.
pub mod Failures
pub mod Sources
use mcp_sql_server.Tools.Statements.Advice.{recommend_top_statement_actions}
use mcp_sql_server.Tools.Statements.{
  Floats, Row, normalize_object_pressure_rows, normalize_top_statement_rows,
}
use mcp_sql_server.Tools.Reports.{Finding, Report, build_finding, build_report_envelope}
use mcp_sql_server.Tools.Catalogue.Statements.{
  top_statements_dmv_fallback_query, top_statements_object_pressure_query,
  top_statements_query_store_query,
}
use mcp_sql_server.Common.{
  Bool, Error, List, Message, Outcome, Text, [], and_then, codes, contains, elem, false,
  if◌then◌else◌, length, lower, map, not, ok, pos_part, raise, take, text_of, true, ℕ, ℤ, ◌>>=◌,
  ◌>>◌, ◌||◌, ◌∷◌,
}

pub data Source : Type 0 where
  query_store dmv_fallback unavailable : Source

abbrev pub is_unavailable : Source → Bool
is_unavailable query_store = false
is_unavailable dmv_fallback = false
is_unavailable unavailable = true

abbrev pub no_issues_title : Message
no_issues_title = text_of "No critical statement performance issues detected"

abbrev pub no_issues_detail : Message
no_issues_detail = text_of "Current analysis did not identify high-severity statement patterns."

pub record Exceptions : Type 0 where
  pub sqlstate : Error → Text
  pub shown_error : Error → Text

-- `is_query_store_unavailable`
unfoldable pub is_query_store_unavailable : Exceptions → Error → Bool
unfolding elem contains
is_query_store_unavailable exceptions e =
    let exc_str = lower (exceptions.shown_error e) in
    elem (exceptions.sqlstate e) (codes "42S02" ∷ codes "42000" ∷ [])
    || contains (codes "query_store") exc_str
    || contains (codes "invalid object name") exc_str
    || contains (codes "permission") exc_str

pub record Summary : Type 0 where
  pub statements_analyzed : ℕ
  pub objects_checked : ℕ
  pub lookback_minutes : ℤ
  pub data_source : Source

module _ {F D : Type 0} (floats : Floats F) (exceptions : Exceptions)
    (execute : Text → ℤ → D → Outcome (List (Row F)) × D) where
  -- A query of the catalogue, whose text may fail to be made.
  abbrev pub ask : Outcome Text → ℤ → D → Outcome (List (Row F)) × D
  ask sql top_n d = and_then (sql, d) (λ sql d. execute sql top_n d)

  -- The inner `try`
  unfoldable pub fall_back : ℤ → D → Outcome (List (Row F) × Source) × D
  unfolding top_statements_dmv_fallback_query
  fall_back top_n d =
      let (o, d') = ask (top_statements_dmv_fallback_query top_n) top_n d in
      (ok (elim o [ ok rows ↦ (rows, dmv_fallback) | raise e ↦ ([], unavailable) ]), d')

  -- What follows the query of the first `try`
  unfoldable pub after_first : ℤ → Outcome (List (Row F)) × D → Outcome (List (Row F) × Source) × D
  unfolding fall_back is_query_store_unavailable
  after_first top_n (ok rows, d) = (ok (rows, query_store), d)
  after_first top_n (raise e, d) =
      if not (is_query_store_unavailable exceptions e) then (raise e, d) else fall_back top_n d

  unfoldable pub collect_statements : ℤ → ℤ → D → Outcome (List (Row F) × Source) × D
  unfolding after_first top_statements_query_store_query
  collect_statements top_n lookback_minutes d =
      after_first top_n (ask (top_statements_query_store_query top_n lookback_minutes) top_n d)

  unfoldable pub collect_objects : ℤ → D → List (Row F) × D
  unfolding top_statements_object_pressure_query
  collect_objects top_n d =
      let (o, d') = ask (top_statements_object_pressure_query top_n) top_n d in
      (elim o [ ok rows ↦ rows | raise e ↦ [] ], d')

  -- What follows the collection of the statements.
  unfoldable pub with_objects :
      ℤ → List (Row F) × Source → D → Outcome (List (Row F) × List (Row F) × Source) × D
  unfolding collect_objects normalize_top_statement_rows normalize_object_pressure_rows
  with_objects top_n (stmt_rows, data_source) d =
      let (obj_rows, d') = collect_objects top_n d in
      (
        normalize_top_statement_rows floats stmt_rows
            >>= (λ rows. ok (rows, normalize_object_pressure_rows floats obj_rows, data_source)),
        d',
      )

  -- `_collect_top_statement_metrics`
  unfoldable pub collect_top_statement_metrics :
      ℤ → ℤ → D → Outcome (List (Row F) × List (Row F) × Source) × D
  unfolding collect_statements with_objects
  collect_top_statement_metrics top_n lookback_minutes d =
      and_then (collect_statements top_n lookback_minutes d) (with_objects top_n)

  -- The finding that is added where there is none.
  unfoldable pub default_finding : Source → Outcome (Finding (Row F))
  unfolding build_finding
  default_finding data_source =
      if is_unavailable data_source
      then build_finding (codes "TOP_STMT_TELEMETRY_UNAVAILABLE") (codes "error")
          (text_of "Statement telemetry source unavailable")
          (text_of
            "Both Query Store and DMV data sources are unavailable for this database. No statement performance analysis can be performed.")
          []
      else build_finding (codes "TOP_STMT_NO_CRITICAL_ISSUES") (codes "info") no_issues_title
          no_issues_detail []

  unfoldable pub findings_or_default :
      List (Finding (Row F)) → Source → Outcome (List (Finding (Row F)))
  unfolding default_finding
  findings_or_default [] data_source = do f ← default_finding data_source; ok (f ∷ [])
  findings_or_default (f ∷ findings) data_source = ok (f ∷ findings)

  -- The report of `_top_statements`, with its statements.
  unfoldable pub report_on :
      ℕ
      → Text
      → Text
      → ℤ
      → ℤ
      → List (Row F) × List (Row F) × Source
      → Outcome (Report Summary (Row F) × List (Row F))
  unfolding recommend_top_statement_actions findings_or_default build_report_envelope
  report_on instance_number db_name tool size lb_minutes (stmt_rows, obj_rows, data_source) = do
    pairs ← recommend_top_statement_actions floats stmt_rows obj_rows
    findings ← findings_or_default (map (λ p. p.0) pairs) data_source
    ok (
      build_report_envelope instance_number db_name tool
          (record {
            statements_analyzed = length stmt_rows;
            objects_checked = length obj_rows;
            lookback_minutes = lb_minutes;
            data_source = data_source;
          })
          findings (map (λ p. p.1) pairs),
      take (pos_part size) stmt_rows,
    )

  -- The body of `_top_statements` behind the gates.
  unfoldable pub top_statements_body :
      ℕ → Text → Text → ℤ → ℤ → D → Outcome (Report Summary (Row F) × List (Row F)) × D
  unfolding collect_top_statement_metrics report_on
  top_statements_body instance_number db_name tool size lb_minutes d =
      and_then (collect_top_statement_metrics size lb_minutes d)
        (λ rows d. (report_on instance_number db_name tool size lb_minutes rows, d))

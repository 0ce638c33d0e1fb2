-- ===== src/Tests/Usage.antt =====
-- diagnostics/usage_summary.py at a log of three lines, one of them blank.
use mcp_sql_server.Diagnostics.Usage.Exact.{
  counts_of, for_category, for_tool, rows_of, summarize_exact, tally,
}
use mcp_sql_server.Diagnostics.Usage.{
  Row, Summary, categorize_tool, counted, is_deny, read_lines, summarize_audit_events, tallied,
  with_row,
}
use mcp_sql_server.Common.{
  List, Outcome, Text, [], codes, contains, count, ends_with, if◌then◌else◌, insert, is_space,
  length, lookup, lstrip, none, ok, refl, rstrip, some, starts_with, strip, text_eq, ◌∷◌, ◌≡◌,
}

abbrev denied : Row
denied = record { tool = some (codes "db_a_sql2019_exec_proc"); decision = some (codes "deny") }

abbrev no_decision : Row
no_decision = record { tool = some (codes "db_a_sql2019_select"); decision = none }

-- Every line is one of the two rows.
abbrev loads : Text → Outcome Row
loads line = ok (if text_eq line (codes "1") then denied else no_decision)

abbrev lines : List Text
lines = codes "1" ∷ codes "  " ∷ codes "2 " ∷ []

abbrev summary : Summary
summary = record {
  events = 2;
  by_category =
      (codes "controlled_write", record { allow = 0; deny = 1; unknown = 0 })
      ∷ (codes "read_only", record { allow = 0; deny = 0; unknown = 1 })
      ∷ [];
  by_tool =
      (codes "db_a_sql2019_exec_proc", record { allow = 0; deny = 1; unknown = 0 })
      ∷ (codes "db_a_sql2019_select", record { allow = 0; deny = 0; unknown = 1 })
      ∷ [];
  deny_total = 1;
  latest = some no_decision;
}

summarize_exact_example :
    (rows : List Row) × (rows_of loads lines ≡ ok rows)
    × (summary.events ≡ length rows)
    × (summary.deny_total ≡ count is_deny rows)
    × ((tool : Text) → counts_of tool summary.by_tool ≡ tally (for_tool tool) rows)
    × ((category : Text)
        → counts_of category summary.by_category ≡ tally (for_category category) rows)
unfolding summarize_audit_events read_lines with_row tallied counted is_deny categorize_tool
    ends_with contains starts_with text_eq strip lstrip rstrip is_space insert lookup
summarize_exact_example = summarize_exact loads lines summary refl

-- ===== src/Diagnostics/Usage.antt =====
-- diagnostics/usage_summary.py: `categorize_tool` and `summarize_audit_events`.
pub mod Exact
use mcp_sql_server.Common.{
  Bool, Dict, List, Option, Outcome, Text, [], codes, contains, ends_with, if◌then◌else◌, insert,
  is_empty, lookup, none, ok, or_default, some, strip, text_eq, ℕ, ◌+◌, ◌>>=◌, ◌∷◌,
}

-- `categorize_tool`
unfoldable pub categorize_tool : Text → Text
unfolding ends_with contains
categorize_tool tool_name =
    if ends_with (codes "_exec_proc") tool_name
    then codes "controlled_write"
    else if ends_with (codes "_report") tool_name
    then codes "diagnostic"
    else if contains (codes "_analyze_") tool_name
    then codes "analysis"
    else if ends_with (codes "_dashboard") tool_name
    then codes "interactive"
    else codes "read_only"

-- A line of the log as `json.loads` gives it: the tool and the decision as `str` gives them, where
-- the line has them.
pub record Row : Type 0 where
  pub tool : Option Text
  pub decision : Option Text

pub record Counts : Type 0 where
  pub allow : ℕ
  pub deny : ℕ
  pub unknown : ℕ

abbrev pub no_counts : Counts
no_counts = record { allow = 0; deny = 0; unknown = 0 }

pub record Summary : Type 0 where
  pub events : ℕ
  pub by_category : Dict Counts
  pub by_tool : Dict Counts
  pub deny_total : ℕ
  pub latest : Option Row

abbrev pub no_events : Summary
no_events = record { events = 0; by_category = []; by_tool = []; deny_total = 0; latest = none }

abbrev pub tool_of : Row → Text
tool_of row = or_default row.tool (codes "unknown")

abbrev pub decision_of : Row → Text
decision_of row = or_default row.decision (codes "unknown")

abbrev pub category_of : Row → Text
category_of row = categorize_tool (tool_of row)

-- `counts[decision if decision in counts else "unknown"] += 1`
unfoldable pub counted : Text → Counts → Counts
unfolding text_eq
counted decision counts =
    if text_eq decision (codes "allow")
    then record counts { allow = counts.allow + 1 }
    else if text_eq decision (codes "deny")
    then record counts { deny = counts.deny + 1 }
    else record counts { unknown = counts.unknown + 1 }

-- `table.setdefault(key, ...)`, then the count.
unfoldable pub tallied : Text → Text → Dict Counts → Dict Counts
unfolding insert lookup counted
tallied key decision table =
    insert key (counted decision (or_default (lookup key table) no_counts)) table

unfoldable pub is_deny : Row → Bool
unfolding text_eq
is_deny row = text_eq (decision_of row) (codes "deny")

-- The body of the loop, for a row.
unfoldable pub with_row : Row → Summary → Summary
unfolding tallied is_deny categorize_tool
with_row row s = record {
  events = s.events + 1;
  by_category = tallied (category_of row) (decision_of row) s.by_category;
  by_tool = tallied (tool_of row) (decision_of row) s.by_tool;
  deny_total = if is_deny row then s.deny_total + 1 else s.deny_total;
  latest = some row;
}

-- The loop over the lines; what `json.loads` makes of a line is a parameter.
unfoldable pub read_lines : (Text → Outcome Row) → List Text → Summary → Outcome Summary
unfolding strip with_row
read_lines loads [] s = ok s
read_lines loads (line ∷ lines) s =
    let blank = read_lines loads lines s in
    if is_empty (strip line)
    then blank
    else loads (strip line) >>= (λ row. read_lines loads lines (with_row row s))

-- `summarize_audit_events`, for the lines of the file if it exists.
unfoldable pub summarize_audit_events : (Text → Outcome Row) → Option (List Text) → Outcome Summary
unfolding read_lines
summarize_audit_events loads none = ok no_events
summarize_audit_events loads (some lines) = read_lines loads lines no_events

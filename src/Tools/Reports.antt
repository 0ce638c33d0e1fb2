-- ===== src/Tools/Reports.antt =====
-- tools/analysis_contracts.py: findings, recommendations and the envelope of a report.
pub mod Counts
use mcp_sql_server.Common.{
  Dict, Error, List, Message, Option, Outcome, Text, [], codes, elem, has_key, if◌then◌else◌,
  insert, is_empty, lit, lookup, lower, map, none, not, ok, or_default, raise, some, str, strip,
  value_error, ℕ, ◌+◌, ◌>>=◌, ◌>>◌, ◌∷◌,
}

abbrev pub valid_severities : List Text
valid_severities =
    codes "critical" ∷ codes "high" ∷ codes "medium" ∷ codes "low" ∷ codes "info" ∷ []

abbrev pub unsupported_severity : Text → Error
unsupported_severity value =
    value_error (lit "INVALID_INPUT: unsupported severity '" ∷ str value ∷ lit "'" ∷ [])

-- `_normalize_severity`
unfoldable pub normalize_severity : Text → Outcome Text
unfolding strip elem
normalize_severity value =
    let normalized = lower (strip value) in
    if not (elem normalized valid_severities)
    then raise (unsupported_severity value)
    else ok normalized

-- The rows of the evidence are of type `E`.
pub record Finding (E : Type 0) : Type 0 where
  pub code : Text
  pub severity : Text
  pub title : Message
  pub detail : Message
  pub evidence : List E

pub record Recommendation : Type 0 where
  pub priority : Text
  pub action : Text
  pub rationale : Text

unfoldable pub build_finding :
    {E : Type 0} → Text → Text → Message → Message → List E → Outcome (Finding E)
unfolding normalize_severity
build_finding code severity title detail evidence = do
  normalized ← normalize_severity severity
  ok (record {
    code = code;
    severity = normalized;
    title = title;
    detail = detail;
    evidence = evidence;
  })

unfoldable pub build_recommendation : Text → Text → Text → Outcome Recommendation
unfolding normalize_severity
build_recommendation priority action rationale = do
  normalized ← normalize_severity priority
  ok (record { priority = normalized; action = action; rationale = rationale })

-- The severity under which a finding is counted.
unfoldable pub counted_as : Dict ℕ → Text → Text
counted_as counts severity = if has_key severity counts then severity else codes "info"

unfoldable pub count_severities : {E : Type 0} → Dict ℕ → List (Finding E) → Dict ℕ
unfolding counted_as insert lookup
count_severities counts [] = counts
count_severities counts (finding ∷ findings) =
    let sev = counted_as counts finding.severity in
    count_severities (insert sev (or_default (lookup sev counts) 0 + 1) counts) findings

-- `{name: 0 for name in _VALID_SEVERITIES}`
abbrev pub zero_counts : Dict ℕ
zero_counts = map (λ name. (name, 0)) valid_severities

abbrev pub dba_review_disclaimer : Text
dba_review_disclaimer =
    codes
      "All recommendations and proposed changes must be reviewed and approved by a database administrator (DBA) before execution to prevent unintended disruptions to production systems."

-- Without the time of the report; the summary is of type `S`.
pub record Report (S E : Type 0) : Type 0 where
  pub instance_number : ℕ
  pub database_name : Text
  pub tool : Text
  pub summary : S
  pub severity_counts : Dict ℕ
  pub findings : List (Finding E)
  pub recommendations : List Recommendation
  pub disclaimer : Option Text

unfoldable pub build_report_envelope :
    {S E : Type 0} → ℕ → Text → Text → S → List (Finding E) → List Recommendation → Report S E
unfolding count_severities
build_report_envelope instance_number database_name tool_name summary findings recommendations =
    record {
      instance_number = instance_number;
      database_name = database_name;
      tool = tool_name;
      summary = summary;
      severity_counts = count_severities zero_counts findings;
      findings = findings;
      recommendations = recommendations;
      disclaimer = if is_empty recommendations then none else some dba_review_disclaimer;
    }

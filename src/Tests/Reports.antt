-- ===== src/Tests/Reports.antt =====
-- Reports on the statements of a database whose queries all fail.
use mcp_sql_server.Tools.Statements.Advised.{expected_codes, recommend_exact}
use mcp_sql_server.Tools.Statements.Shapes.{IsShaped, Pointwise, Unless, overflows, rows-IsShaped}
use mcp_sql_server.Tools.Statements.Collect.Sources.{
  finding_codes, no_critical_issues, report_exact,
}
use mcp_sql_server.Tools.Statements.Collect.{
  Exceptions, Summary, is_unavailable, report_on, unavailable,
}
use mcp_sql_server.Tools.Statements.Findings.{codes_of}
use mcp_sql_server.Tools.Statements.Advice.{recommend_top_statement_actions}
use mcp_sql_server.Tools.Statements.{
  Floats, Row, float_value, int_value, normalize_top_statement_rows, truncated_to,
}
use mcp_sql_server.Tools.Reports.{Finding, Recommendation, Report, unsupported_severity}
use mcp_sql_server.Common.{
  Error, List, Outcome, Text, [], any, codes, database_error, false, if◌then◌else◌, is_empty, leb,
  lookup, ltb, none, ok, pos, pos_part, raise, refl, some, text_eq, true, ℕ, ℤ, ◌&&◌, ◌*◌, ◌+◌, ◌/◌,
  ◌==◌, ◌∷◌, ◌≡◌, ◌⊎◌,
}

-- Numbers with a fraction, in hundredths.
abbrev pub hundredths : Floats ℕ
hundredths = record {
  zero_float = 0;
  parse = λ s. none;
  of_int = λ n. some (pos_part n * 100);
  truncated = λ x. truncated_to (pos (x / 100));
  at_least = λ x n. leb n x;
  is_positive = λ x. ltb 0 x;
  is_zero = λ x. x == 0;
  shown = λ x. codes "?";
  shown_thousandth = λ x. codes "?";
  shown_grouped = λ x. codes "?";
  percent = λ x. codes "?";
}

abbrev pub exceptions : Exceptions
exceptions = record { sqlstate = λ e. []; shown_error = λ e. codes "Permission denied" }

abbrev denied : Error
denied = database_error []

abbrev pub execute : Text → ℤ → ℕ → Outcome (List (Row ℕ)) × ℕ
execute sql n d = (raise denied, d + 1)

abbrev slow_row : Row ℕ
slow_row = (codes "weighted_avg_duration_us", int_value (pos 7000000)) ∷ []

abbrev scanned_row : Row ℕ
scanned_row = (codes "scan_ratio", float_value 95) ∷ (codes "row_count", int_value (pos 10)) ∷ []

recommend_exact_example :
    (ps : List (Finding (Row ℕ) × Recommendation)) × (recommend_top_statement_actions hundredths
        (slow_row ∷ [])
        (scanned_row ∷ [])
      ≡ ok ps)
    × (codes_of hundredths ps ≡ expected_codes hundredths (slow_row ∷ []) (scanned_row ∷ []))
unfolding lookup text_eq
recommend_exact_example =
    recommend_exact hundredths (slow_row ∷ []) (scanned_row ∷ []) ((refl, refl, refl), tt)
      ((refl, refl), tt)

report_exact_example :
    let o =
      report_on hundredths exceptions execute 1
        (codes "db")
        (codes "t")
        (pos 5)
        (pos 60)
        ([], [], unavailable) in
    let expected = expected_codes hundredths [] [] in
    ((is_unavailable unavailable && is_empty expected ≡ true)
      × (o ≡ raise (unsupported_severity (codes "error"))))
    ⊎ ((is_unavailable unavailable && is_empty expected ≡ false)
        × ((r : Report Summary (Row ℕ) × List (Row ℕ)) × (o ≡ ok r)
            × (finding_codes r.0.findings
                ≡ (if is_empty expected then no_critical_issues ∷ [] else expected))))
report_exact_example =
    report_exact hundredths exceptions execute 1 (codes "db") (codes "t") (pos 5) (pos 60) [] []
      unavailable tt tt

rows-IsShaped_example :
    Unless hundredths
      (any (overflows hundredths) (slow_row ∷ []))
      (Pointwise (Pointwise (IsShaped hundredths)) (slow_row ∷ []))
      (normalize_top_statement_rows hundredths (slow_row ∷ []))
rows-IsShaped_example = rows-IsShaped hundredths (slow_row ∷ [])

-- ===== src/Tools/Statements/Collect/Sources.antt =====
-- What becomes of a report, with its rows or without them.
use mcp_sql_server.Tools.Statements.Advised.{expected_codes, recommend_exact}
use mcp_sql_server.Tools.Statements.Typed.{IsObject, IsStatement}
use mcp_sql_server.Tools.Reports.{
  Finding, Recommendation, Report, build_finding, build_report_envelope, normalize_severity,
  unsupported_severity,
}
use mcp_sql_server.Tools.Statements.Findings.{build_finding-ok, codes_of}
use mcp_sql_server.Tools.Statements.Collect.{
  Exceptions, Source, Summary, default_finding, findings_or_default, is_unavailable,
  no_issues_detail, no_issues_title, report_on,
}
use mcp_sql_server.Tools.Statements.{Floats, Row}
use mcp_sql_server.Common.{
  Bool, Bool-cases, Each, List, Outcome, Text, [], ap, arith, codes, elem, false, if◌then◌else◌,
  inl, inr, is_empty, is_space, length, lower_char, lstrip, map, ok, pos_part, raise, refl, rstrip,
  strip, take, text_eq, true, ℕ, ℤ, ◌&&◌, ◌∙◌, ◌∷◌, ◌≡◌, ◌⊎◌,
}

abbrev pub no_critical_issues : Text
no_critical_issues = codes "TOP_STMT_NO_CRITICAL_ISSUES"

abbrev pub finding_codes : {E : Type 0} → List (Finding E) → List Text
finding_codes fs = map (λ f. f.code) fs

no_conjunct : (b : Bool) → b && false ≡ false
no_conjunct b = ground arith

module _ {F D : Type 0} (floats : Floats F) (exceptions : Exceptions)
    (execute : Text → ℤ → D → Outcome (List (Row F)) × D) where
  error_severity : normalize_severity (codes "error") ≡ raise (unsupported_severity (codes "error"))
  unfolding normalize_severity strip lstrip rstrip is_space elem text_eq lower_char
  error_severity = refl

  info_severity : normalize_severity (codes "info") ≡ ok (codes "info")
  unfolding normalize_severity strip lstrip rstrip is_space elem text_eq lower_char
  info_severity = refl

  -- The one finding of a report that has no other.
  default-finding :
      (source : Source)
      → ((is_unavailable source ≡ true)
          × (default_finding floats exceptions execute source
              ≡ raise (unsupported_severity (codes "error"))))
        ⊎ ((is_unavailable source ≡ false)
            × ((f : Finding (Row F)) × (default_finding floats exceptions execute source ≡ ok f)
                × (f.code ≡ no_critical_issues)))
  unfolding default_finding
  default-finding source = elim (Bool-cases (is_unavailable source)) [
    | inl away ↦ inl (away, rw away (unfold build_finding in rw error_severity refl))
    | inr there ↦ inr (
      there,
      rw there (
          build_finding-ok no_critical_issues (codes "info") (codes "info") no_issues_title
            no_issues_detail [] info_severity),
    )
  ]

  finding_codes-pairs :
      (ps : List (Finding (Row F) × Recommendation))
      → finding_codes (map (λ p. p.0) ps) ≡ codes_of floats ps
  finding_codes-pairs [] = refl
  finding_codes-pairs (p ∷ ps) = ap (◌∷◌ p.0.code) (finding_codes-pairs ps)

  -- The findings of a report: those expected, or the one that says that there is nothing to find; and
  -- none where the source is unavailable.
  Reported : List Text → Source → Outcome (List (Finding (Row F))) → Type 0
  Reported expected source o =
      ((is_unavailable source && is_empty expected ≡ true)
        × (o ≡ raise (unsupported_severity (codes "error"))))
      ⊎ ((is_unavailable source && is_empty expected ≡ false)
          × ((fs : List (Finding (Row F))) × (o ≡ ok fs)
              × (finding_codes fs
                  ≡ (if is_empty expected then no_critical_issues ∷ [] else expected))))

  findings-Reported :
      (fs : List (Finding (Row F))) (expected : List Text) (source : Source)
      → finding_codes fs ≡ expected
      → Reported expected source (findings_or_default floats exceptions execute fs source)
  unfolding Reported findings_or_default
  findings-Reported [] expected source h = elim (default-finding source) [
    | inl (away, raises) ↦ inl (rw (← h, away) refl, rw raises refl)
    | inr (there, (f, made, code)) ↦
        inr (rw there refl, (f ∷ [], rw made refl, rw (← h, code) refl))
  ]
  findings-Reported (f ∷ fs) expected source h =
      inr (rw (← h) (no_conjunct (is_unavailable source)), (f ∷ fs, refl, rw (← h) refl))

  -- For rows whose values have the types of the catalogue's queries, the report of the top statements
  -- raises exactly where the rows give no finding and their source is unavailable: the finding that
  -- should say so has a severity that is none, and the caller gets ValueError in its place. In
  -- exactly all other cases there is a report, whose findings are those that the rows give, or else
  -- the one that says that there are no critical issues.
  pub report_exact :
      (number : ℕ) (db_name tool : Text) (size minutes : ℤ) (stmts objs : List (Row F))
      (source : Source)
      → Each (IsStatement floats) stmts
      → Each (IsObject floats) objs
      → let o =
          report_on floats exceptions execute number db_name tool size minutes
            (stmts, objs, source) in
        let expected = expected_codes floats stmts objs in
        ((is_unavailable source && is_empty expected ≡ true)
          × (o ≡ raise (unsupported_severity (codes "error"))))
        ⊎ ((is_unavailable source && is_empty expected ≡ false)
            × ((r : Report Summary (Row F) × List (Row F)) × (o ≡ ok r)
                × (finding_codes r.0.findings
                    ≡ (if is_empty expected then no_critical_issues ∷ [] else expected))))
  unfolding report_on build_report_envelope Reported
  report_exact number db_name tool size minutes stmts objs source typed_stmts typed_objs =
      let (ps, advised, shown) = recommend_exact floats stmts objs typed_stmts typed_objs in
      let fs = map (λ (p : Finding (Row F) × Recommendation). p.0) ps in
      let expected = expected_codes floats stmts objs in
      elim (findings-Reported fs expected source (finding_codes-pairs ps ∙ shown)) [
        | inl (away, raises) ↦ inl (away, rw (advised, raises) refl)
        | inr (there, (gs, made, right)) ↦ inr (
          there,
          (
            (
              build_report_envelope number db_name tool
                  (record {
                    statements_analyzed = length stmts;
                    objects_checked = length objs;
                    lookback_minutes = minutes;
                    data_source = source;
                  })
                  gs (map (λ (p : Finding (Row F) × Recommendation). p.1) ps),
              take (pos_part size) stmts,
            ),
            rw (advised, made) refl,
            right,
          ),
        )
      ]

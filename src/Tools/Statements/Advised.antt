-- ===== src/Tools/Statements/Advised.antt =====
-- The findings of `_recommend_top_statement_actions` as a whole.
use mcp_sql_server.Common.{
  Bool, Each, List, Text, [], any, ap, arith, codes, is_empty, keep, not, ok, refl, ◌++◌, ◌∙◌, ◌∷◌,
  ◌≡◌,
}
use mcp_sql_server.Tools.Statements.{Floats, Row}
use mcp_sql_server.Tools.Statements.Advice.{recommend_top_statement_actions}
use mcp_sql_server.Tools.Statements.Typed.{
  Each-keep, IsObject, IsStatement, frequent, is_frequent-total, is_large-total, is_medium-total,
  is_scanned-total, is_slow-total, keep_where-total, large, medium, scanned, slow,
}
use mcp_sql_server.Tools.Statements.Findings.{
  Gives, Pair, codes_of, duration-Gives, execution-Gives, large-Gives, map-append, rewrite-Gives,
  scan-Gives, when,
}

is_empty-keep : {A : Type 0} (p : A → Bool) (xs : List A) → not (is_empty (keep p xs)) ≡ any p xs
unfolding keep any
is_empty-keep p [] = refl
is_empty-keep p (x ∷ xs) = ground (arith, is_empty-keep p xs)

module _ {F : Type 0} (floats : Floats F) where
  shown_by :
      (code : Text) (p : Row F → Bool) (rows : List (Row F)) (ps : List (Pair floats))
      → codes_of floats ps ≡ when (not (is_empty (keep p rows))) code
      → codes_of floats ps ≡ when (any p rows) code
  shown_by code p rows ps h = h ∙ ap (λ b. when b code) (is_empty-keep p rows)

  codes-append :
      (ps qs : List (Pair floats)) {xs ys : List Text}
      → codes_of floats ps ≡ xs
      → codes_of floats qs ≡ ys
      → codes_of floats (ps ++ qs) ≡ xs ++ ys
  codes-append ps qs h k = rw (map-append (λ (p : Pair floats). p.0.code) ps qs, h, k) refl

  -- The codes of the findings that rows of these kinds should give.
  abbrev pub expected_codes : List (Row F) → List (Row F) → List Text
  expected_codes statement_rows object_rows =
      when (any (slow floats) statement_rows) (codes "TOP_STMT_HIGH_DURATION")
      ++ when (any (frequent floats) statement_rows) (codes "TOP_STMT_HIGH_EXECUTION_COUNT")
      ++ when (any (scanned floats) object_rows) (codes "TOP_STMT_HIGH_SCAN_PRESSURE")
      ++ when (any (large floats) object_rows) (codes "TOP_STMT_LARGE_TABLE_CANDIDATE")
      ++ when (any (medium floats) statement_rows) (codes "TOP_STMT_REWRITE_CANDIDATE")

  -- For rows whose durations, execution and row counts are numbers or missing, whose SQL text is a
  -- text or missing and whose scan ratios are numbers with a fraction or missing, the advice does
  -- not raise: it gives, each with its recommendation, exactly the findings for which there is a
  -- row: a statement of 5 seconds or more on average, one of 10000 executions or more, a table that
  -- is scanned in 80 percent of its accesses or more and is not empty, one of ten million rows or
  -- more, and a statement of one second or more but less than 5.
  pub recommend_exact :
      (statement_rows object_rows : List (Row F))
      → Each (IsStatement floats) statement_rows
      → Each (IsObject floats) object_rows
      → (ps : List (Pair floats)) × (recommend_top_statement_actions floats statement_rows
            object_rows
          ≡ ok ps)
        × (codes_of floats ps ≡ expected_codes statement_rows object_rows)
  unfolding recommend_top_statement_actions Gives
  recommend_exact stmts objs typed_stmts typed_objs =
      let S = IsStatement floats in
      let O = IsObject floats in
      let (p1, e1, c1) =
        duration-Gives floats (keep (slow floats) stmts) (Each-keep S _ stmts typed_stmts) in
      let (p2, e2, c2) =
        execution-Gives floats (keep (frequent floats) stmts) (Each-keep S _ stmts typed_stmts) in
      let (p3, e3, c3) =
        scan-Gives floats (keep (scanned floats) objs) (Each-keep O _ objs typed_objs) in
      let (p4, e4, c4) =
        large-Gives floats (keep (large floats) objs) (Each-keep O _ objs typed_objs) in
      let (p5, e5, c5) =
        rewrite-Gives floats (keep (medium floats) stmts) (Each-keep S _ stmts typed_stmts) in
      (
        p1 ++ p2 ++ p3 ++ p4 ++ p5,
        rw
            (
              keep_where-total S _ (slow floats) stmts (is_slow-total floats) typed_stmts,
              keep_where-total S _ (medium floats) stmts (is_medium-total floats) typed_stmts,
              keep_where-total S _ (frequent floats) stmts (is_frequent-total floats) typed_stmts,
              e1,
              e2,
              keep_where-total O _ (scanned floats) objs (is_scanned-total floats) typed_objs,
              keep_where-total O _ (large floats) objs (is_large-total floats) typed_objs,
              e3,
              e4,
              e5,
            )
            refl,
        codes-append (p1 ++ p2 ++ p3 ++ p4) p5
            (codes-append (p1 ++ p2 ++ p3) p4
              (codes-append (p1 ++ p2) p3
                (codes-append p1 p2 (shown_by _ (slow floats) stmts p1 c1)
                  (shown_by _ (frequent floats) stmts p2 c2))
                (shown_by _ (scanned floats) objs p3 c3))
              (shown_by _ (large floats) objs p4 c4))
            (shown_by _ (medium floats) stmts p5 c5),
      )

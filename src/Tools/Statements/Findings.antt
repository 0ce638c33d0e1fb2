-- ===== src/Tools/Statements/Findings.antt =====
-- Which findings the rows give, if their values have the types of the queries.
use mcp_sql_server.Db.Reads.{rendered, shown_int}
use mcp_sql_server.Tools.Statements.Typed.{
  Each-take, IsObject, IsStatement, cell_at_least-numeric, each_of-total, is_from, is_numeric,
  is_ratio, is_ratio-numeric, is_textual,
}
use mcp_sql_server.Tools.Statements.Values.{
  fragment, grouped, or_zero, shown_grouped_of, shown_ratio, shown_thousandth_of,
}
use mcp_sql_server.Tools.Statements.Advice.{
  both_of, duration_advice, duration_key, duration_values, evidence_of, execution_advice,
  execution_values, large_advice, ratio_key, rewrite_advice, rewrite_values, row_count_key,
  scan_advice, scan_severity, sql_key,
}
use mcp_sql_server.Tools.Statements.{
  Cell, Floats, Row, each_of, float_value, get, int_value, no_value, text_value,
}
use mcp_sql_server.Tools.Reports.{
  Finding, Recommendation, build_finding, build_recommendation, normalize_severity,
}
use mcp_sql_server.Common.{
  Bool, Bool-cases, Each, List, Message, Outcome, Text, [], all, ap, codes, elem, false, inl, inr,
  is_empty, is_space, lower_char, lstrip, map, not, ok, pos, refl, rstrip, strip, take, text_eq,
  true, ◌++◌, ◌∷◌, ◌≡◌,
}

abbrev pub when : Bool → Text → List Text
when true code = code ∷ []
when false code = []

pub map-append :
    {A B : Type 0} (f : A → B) (xs ys : List A) → map f (xs ++ ys) ≡ map f xs ++ map f ys
map-append f [] ys = refl
map-append f (x ∷ xs) ys = ap (◌∷◌ (f x)) (map-append f xs ys)

pub build_finding-ok :
    {E : Type 0} (code severity normalized : Text) (title detail : Message) (evidence : List E)
    → normalize_severity severity ≡ ok normalized
    → (f : Finding E) × (build_finding code severity title detail evidence ≡ ok f) × (f.code ≡ code)
unfolding build_finding
build_finding-ok code severity normalized title detail evidence h = (
  record {
    code = code;
    severity = normalized;
    title = title;
    detail = detail;
    evidence = evidence;
  },
  rw h refl,
  refl,
)

high-normal : normalize_severity (codes "high") ≡ ok (codes "high")
unfolding normalize_severity strip lstrip rstrip is_space elem text_eq lower_char
high-normal = refl

medium-normal : normalize_severity (codes "medium") ≡ ok (codes "medium")
unfolding normalize_severity strip lstrip rstrip is_space elem text_eq lower_char
medium-normal = refl

module _ {F : Type 0} (floats : Floats F) where
  abbrev pub Pair : Type 0
  Pair = Finding (Row F) × Recommendation

  abbrev pub codes_of : List Pair → List Text
  codes_of ps = map (λ p. p.0.code) ps

  -- A part of the advice: it never raises, and gives its one finding where it has a row.
  unfoldable pub Gives : Text → List (Row F) → Outcome (List Pair) → Type 0
  Gives code rows o =
      (ps : List Pair) × (o ≡ ok ps) × (codes_of ps ≡ when (not (is_empty rows)) code)

  both-Gives :
      (code severity : Text) (title detail : Message) (evidence : List (Row F))
      (priority action rationale : Text)
      → normalize_severity severity ≡ ok severity
      → normalize_severity priority ≡ ok priority
      → (ps : List Pair) × (both_of floats
            (build_finding code severity title detail evidence)
            (build_recommendation priority action rationale)
          ≡ ok ps)
        × (codes_of ps ≡ code ∷ [])
  unfolding build_recommendation
  both-Gives code severity title detail evidence priority action rationale h k =
      let (f, made, same) = build_finding-ok code severity severity title detail evidence h in
      let r : Recommendation = record {
        priority = priority;
        action = action;
        rationale = rationale;
      } in
      ((f, r) ∷ [], rw (made, k) refl, ap (λ c. c ∷ []) same)

  severity-normal :
      (high : Bool)
      → normalize_severity (scan_severity floats high) ≡ ok (scan_severity floats high)
  severity-normal true = high-normal
  severity-normal false = medium-normal

  textual_fragment :
      (c : Cell F) → is_textual floats c ≡ true → (f : Cell F) × (fragment floats c ≡ ok f)
  unfolding fragment
  textual_fragment no_value h = (text_value [], refl)
  textual_fragment (int_value n) h = cc
  textual_fragment (float_value x) h = cc
  textual_fragment (text_value s) h = (text_value (take 500 s), refl)

  evidence-total :
      (values : Row F → Row F) (r : Row F)
      → IsStatement floats r
      → (e : Row F) × (evidence_of floats values r ≡ ok e)
  unfolding evidence_of
  evidence-total values r h =
      let (f, e) = textual_fragment (get floats sql_key r) h.2 in
      (values r ++ (codes "sql_fragment", f) ∷ [], rw e refl)

  rows_of :
      (values : Row F → Row F) (rows : List (Row F))
      → Each (IsStatement floats) rows
      → (es : List (Row F)) × (each_of (evidence_of floats values) (take 10 rows) ≡ ok es)
  rows_of values rows all =
      each_of-total (IsStatement floats) (evidence_of floats values) (take 10 rows)
        (evidence-total values) (Each-take (IsStatement floats) 10 rows all)

  numeric_thousandth :
      (c : Cell F)
      → is_numeric floats c ≡ true
      → (t : Text) × (shown_thousandth_of floats (or_zero floats c) ≡ ok t)
  unfolding shown_thousandth_of or_zero rendered
  numeric_thousandth no_value h = (_, refl)
  numeric_thousandth (int_value n) h = (_, refl)
  numeric_thousandth (float_value x) h = elim (Bool-cases (floats.is_zero x)) [
    | inl e ↦ (shown_int (pos 0), rw e refl)
    | inr n ↦ (floats.shown_thousandth x, rw n refl)
  ]
  numeric_thousandth (text_value s) h = cc

  numeric_grouped :
      (c : Cell F)
      → is_numeric floats c ≡ true
      → (t : Text) × (shown_grouped_of floats (or_zero floats c) ≡ ok t)
  unfolding shown_grouped_of or_zero grouped
  numeric_grouped no_value h = (_, refl)
  numeric_grouped (int_value n) h = (_, refl)
  numeric_grouped (float_value x) h = elim (Bool-cases (floats.is_zero x)) [
    | inl e ↦ (grouped 1 0, rw e refl)
    | inr n ↦ (floats.shown_grouped x, rw n refl)
  ]
  numeric_grouped (text_value s) h = cc

  ratio_shown : (c : Cell F) → is_ratio floats c ≡ true → (t : Text) × (shown_ratio floats c ≡ ok t)
  unfolding shown_ratio
  ratio_shown no_value h = (_, refl)
  ratio_shown (int_value n) h = cc
  ratio_shown (float_value x) h = (_, refl)
  ratio_shown (text_value s) h = cc

  pub duration-Gives :
      (rows : List (Row F))
      → Each (IsStatement floats) rows
      → Gives (codes "TOP_STMT_HIGH_DURATION") rows (duration_advice floats rows)
  unfolding Gives duration_advice
  duration-Gives [] all = ([], refl, refl)
  duration-Gives (top ∷ rest) all =
      let (es, made) = rows_of (duration_values floats) (top ∷ rest) all in
      let (t, shown) = numeric_thousandth (get floats duration_key top) all.0.0 in
      rw (made, shown)
        (both-Gives _ (codes "high") _ _ _ (codes "high") _ _ high-normal high-normal)

  pub execution-Gives :
      (rows : List (Row F))
      → Each (IsStatement floats) rows
      → Gives (codes "TOP_STMT_HIGH_EXECUTION_COUNT") rows (execution_advice floats rows)
  unfolding Gives execution_advice
  execution-Gives [] all = ([], refl, refl)
  execution-Gives (top ∷ rest) all =
      let (es, made) = rows_of (execution_values floats) (top ∷ rest) all in
      rw made (both-Gives _ (codes "medium") _ _ _ (codes "medium") _ _ medium-normal medium-normal)

  pub scan-Gives :
      (rows : List (Row F))
      → Each (IsObject floats) rows
      → Gives (codes "TOP_STMT_HIGH_SCAN_PRESSURE") rows (scan_advice floats rows)
  unfolding Gives scan_advice
  scan-Gives [] all = ([], refl, refl)
  scan-Gives (top ∷ rest) all =
      let c = get floats ratio_key top in
      let (t, shown) = ratio_shown c all.0.0 in
      let high = is_from floats 90 c in
      rw (cell_at_least-numeric floats 90 c (is_ratio-numeric floats c all.0.0), shown)
        (both-Gives _ (scan_severity floats high) _ _ _ (scan_severity floats high) _ _
          (severity-normal high) (severity-normal high))

  pub large-Gives :
      (rows : List (Row F))
      → Each (IsObject floats) rows
      → Gives (codes "TOP_STMT_LARGE_TABLE_CANDIDATE") rows (large_advice floats rows)
  unfolding Gives large_advice
  large-Gives [] all = ([], refl, refl)
  large-Gives (top ∷ rest) all =
      let (t, shown) = numeric_grouped (get floats row_count_key top) all.0.1 in
      rw shown
        (both-Gives _ (codes "medium") _ _ _ (codes "medium") _ _ medium-normal medium-normal)

  pub rewrite-Gives :
      (rows : List (Row F))
      → Each (IsStatement floats) rows
      → Gives (codes "TOP_STMT_REWRITE_CANDIDATE") rows (rewrite_advice floats rows)
  unfolding Gives rewrite_advice
  rewrite-Gives [] all = ([], refl, refl)
  rewrite-Gives (top ∷ rest) all =
      let (es, made) = rows_of (rewrite_values floats) (top ∷ rest) all in
      rw made (both-Gives _ (codes "medium") _ _ _ (codes "medium") _ _ medium-normal medium-normal)

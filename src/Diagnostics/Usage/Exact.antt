-- ===== src/Diagnostics/Usage/Exact.antt =====
-- The summary counts exactly the rows of the log.
use mcp_sql_server.Diagnostics.Usage.{
  Counts, Row, Summary, category_of, counted, decision_of, is_deny, no_counts, no_events,
  read_lines, summarize_audit_events, tallied, tool_of, with_row,
}
use mcp_sql_server.Common.{
  >>=-returns, Bool, Bool-cases, Dict, List, Outcome, Text, [], arith, count, false, if◌then◌else◌,
  inl, inr, is_empty, length, lookup, lookup-insert, ok, or_default, refl, some, strip, sym,
  text_eq, text_eq_iff, true, ◌+◌, ◌>>=◌, ◌∙◌, ◌∷◌, ◌≡◌,
}

-- The rows of the lines that are not blank.
unfoldable pub rows_of : (Text → Outcome Row) → List Text → Outcome (List Row)
rows_of loads [] = ok []
rows_of loads (line ∷ lines) =
    let rest = rows_of loads lines in
    if is_empty (strip line)
    then rest
    else loads (strip line) >>= (λ row. rest >>= (λ rows. ok (row ∷ rows)))

unfoldable pub with_rows : List Row → Summary → Summary
with_rows [] s = s
with_rows (row ∷ rows) s = with_rows rows (with_row row s)

with_rows-cons :
    (row : Row) (rows : List Row) (s : Summary)
    → with_rows (row ∷ rows) s ≡ with_rows rows (with_row row s)
unfolding with_rows
with_rows-cons row rows s = refl

rows_of-solid :
    (loads : Text → Outcome Row) (line : Text) (lines : List Text) (row : Row) (rows : List Row)
    → is_empty (strip line) ≡ false
    → loads (strip line) ≡ ok row
    → rows_of loads lines ≡ ok rows
    → rows_of loads (line ∷ lines) ≡ ok (row ∷ rows)
unfolding rows_of
rows_of-solid loads line lines row rows solid loaded read = ground arith

rows_of-blank :
    (loads : Text → Outcome Row) (line : Text) (lines : List Text)
    → is_empty (strip line) ≡ true
    → rows_of loads (line ∷ lines) ≡ rows_of loads lines
unfolding rows_of
rows_of-blank loads line lines blank = ground arith

read_lines-solid :
    (loads : Text → Outcome Row) (line : Text) (lines : List Text) (s : Summary)
    → is_empty (strip line) ≡ false
    → read_lines loads (line ∷ lines) s
      ≡ loads (strip line) >>= (λ row. read_lines loads lines (with_row row s))
unfolding read_lines
read_lines-solid loads line lines s solid = ground arith

read_lines-blank :
    (loads : Text → Outcome Row) (line : Text) (lines : List Text) (s : Summary)
    → is_empty (strip line) ≡ true
    → read_lines loads (line ∷ lines) s ≡ read_lines loads lines s
unfolding read_lines
read_lines-blank loads line lines s blank = ground arith

read_lines-rows_of :
    (loads : Text → Outcome Row) (lines : List Text) (s s' : Summary)
    → read_lines loads lines s ≡ ok s'
    → (rows : List Row) × (rows_of loads lines ≡ ok rows) × (with_rows rows s ≡ s')
read_lines-rows_of loads [] s s' h =
    ([], unfold rows_of in refl, unfold with_rows in (unfold read_lines in cc))
read_lines-rows_of loads (line ∷ lines) s s' h = elim (Bool-cases (is_empty (strip line))) [
  | inl blank ↦
      let (rows, read, done) =
        read_lines-rows_of loads lines s s' (sym (read_lines-blank loads line lines s blank) ∙ h) in
      (rows, rows_of-blank loads line lines blank ∙ read, done)
  | inr solid ↦
      let (row, loaded, after) =
        >>=-returns (loads (strip line)) (λ (row : Row). read_lines loads lines (with_row row s))
          (sym (read_lines-solid loads line lines s solid) ∙ h) in
      let (rows, read, done) = read_lines-rows_of loads lines (with_row row s) s' after in
      (
        row ∷ rows,
        rows_of-solid loads line lines row rows solid loaded read,
        with_rows-cons row rows s ∙ done,
      )
]

-- The counts of the rows with a property, by their decision.
unfoldable pub tally : (Row → Bool) → List Row → Counts
unfolding counted
tally p [] = no_counts
tally p (row ∷ rows) =
    let rest = tally p rows in if p row then counted (decision_of row) rest else rest

abbrev pub plus : Counts → Counts → Counts
plus a b = record {
  allow = a.allow + b.allow;
  deny = a.deny + b.deny;
  unknown = a.unknown + b.unknown;
}

plus-counted : (d : Text) (a b : Counts) → plus (counted d a) b ≡ plus a (counted d b)
unfolding counted
plus-counted d a b = ground arith

-- The counts of a key in a table.
abbrev pub counts_of : Text → Dict Counts → Counts
counts_of k table = or_default (lookup k table) no_counts

counts_of-tallied :
    (k key d : Text) (table : Dict Counts)
    → counts_of k (tallied key d table)
      ≡ (if text_eq key k then counted d (counts_of k table) else counts_of k table)
unfolding tallied
counts_of-tallied k key d table =
    ground (arith, lookup-insert key k (counted d (counts_of key table)) table, text_eq_iff key k)

abbrev pub for_tool : Text → Row → Bool
for_tool k row = text_eq (tool_of row) k

abbrev pub for_category : Text → Row → Bool
for_category k row = text_eq (category_of row) k

by_tool-with_rows :
    (k : Text) (rows : List Row) (s : Summary)
    → counts_of k (with_rows rows s).by_tool
      ≡ plus (counts_of k s.by_tool) (tally (for_tool k) rows)
unfolding with_rows with_row tally
by_tool-with_rows k [] s = ground arith
by_tool-with_rows k (row ∷ rows) s = ground (
  arith,
  by_tool-with_rows k rows (with_row row s),
  counts_of-tallied k (tool_of row) (decision_of row) s.by_tool,
  plus-counted (decision_of row) (counts_of k s.by_tool) (tally (for_tool k) rows),
)

by_category-with_rows :
    (k : Text) (rows : List Row) (s : Summary)
    → counts_of k (with_rows rows s).by_category
      ≡ plus (counts_of k s.by_category) (tally (for_category k) rows)
unfolding with_rows with_row tally
by_category-with_rows k [] s = ground arith
by_category-with_rows k (row ∷ rows) s = ground (
  arith,
  by_category-with_rows k rows (with_row row s),
  counts_of-tallied k (category_of row) (decision_of row) s.by_category,
  plus-counted (decision_of row) (counts_of k s.by_category) (tally (for_category k) rows),
)

events-with_rows :
    (rows : List Row) (s : Summary) → (with_rows rows s).events ≡ s.events + length rows
unfolding with_rows with_row
events-with_rows [] s = omega arith
events-with_rows (row ∷ rows) s = omega (arith, events-with_rows rows (with_row row s))

deny_total-with_rows :
    (rows : List Row) (s : Summary)
    → (with_rows rows s).deny_total ≡ s.deny_total + count is_deny rows
unfolding with_rows with_row count
deny_total-with_rows [] s = omega arith
deny_total-with_rows (row ∷ rows) s = ground (arith, deny_total-with_rows rows (with_row row s))

plus-no_counts : (c : Counts) → plus no_counts c ≡ c
plus-no_counts c = ground arith

-- The summary, where every line that is not blank is read without an error: `events` is the number
-- of these lines, `deny_total` the number of those with the decision `deny`, and for every tool and
-- for every category the counts are those of its lines with the decision `allow`, with `deny`, and
-- with any other decision or none.
pub summarize_exact :
    (loads : Text → Outcome Row) (lines : List Text) (s : Summary)
    → summarize_audit_events loads (some lines) ≡ ok s
    → (rows : List Row) × (rows_of loads lines ≡ ok rows)
      × (s.events ≡ length rows)
      × (s.deny_total ≡ count is_deny rows)
      × ((tool : Text) → counts_of tool s.by_tool ≡ tally (for_tool tool) rows)
      × ((category : Text) → counts_of category s.by_category ≡ tally (for_category category) rows)
unfolding summarize_audit_events lookup
summarize_exact loads lines s h =
    let (rows, read, done) = read_lines-rows_of loads lines no_events s h in
    (
      rows,
      read,
      rw (← done) (omega (arith, events-with_rows rows no_events)),
      rw (← done) (omega (arith, deny_total-with_rows rows no_events)),
      (λ tool.
          rw (← done)
            (by_tool-with_rows tool rows no_events ∙ plus-no_counts (tally (for_tool tool) rows))),
      (λ category. rw (← done) (
          by_category-with_rows category rows no_events
          ∙ plus-no_counts (tally (for_category category) rows))),
    )

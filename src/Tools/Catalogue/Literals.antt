-- ===== src/Tools/Catalogue/Literals.antt =====
-- Names that stand in a statement as literals.
use mcp_sql_server.Db.Reads.{rendered}
use mcp_sql_server.Tools.Catalogue.Statistics.{statistics_histogram_query}
use mcp_sql_server.Tools.Catalogue.{escaped}
use mcp_sql_server.Common.{
  Bool, Bool-cases, Option, Text, [], ap, append_assoc, arith, codes, false, if◌then◌else◌, inl,
  inr, none, refl, some, sym, ℕ, ◌++◌, ◌==◌, ◌∙◌, ◌∷◌, ◌≡◌,
}

abbrev pub quote : ℕ
quote = 39

abbrev push : ℕ → Option (Text × Text) → Option (Text × Text)
push c none = none
push c (some (value, rest)) = some (c ∷ value, rest)

-- How the server reads a literal behind its opening quote: up to the first quote that is not doubled.
-- The value, and what follows.
unfoldable pub read_literal : Text → Option (Text × Text)
read_literal [] = none
read_literal (c ∷ []) = if c == quote then some ([], []) else none
read_literal (c ∷ d ∷ s) =
    let doubled = push quote (read_literal s) in
    let plain = push c (read_literal (d ∷ s)) in
    if c == quote then (if d == quote then doubled else some ([], d ∷ s)) else plain

abbrev pub starts_quote : Text → Bool
starts_quote [] = false
starts_quote (c ∷ s) = c == quote

cons_nonempty :
    (c : ℕ) (s t : Text)
    → (c == quote ≡ false)
    → read_literal (c ∷ (s ++ quote ∷ t)) ≡ push c (read_literal (s ++ quote ∷ t))
unfolding read_literal
cons_nonempty c [] t h = ground (arith, h)
cons_nonempty c (d ∷ s) t h = ground (arith, h)

-- Reading an escaped text gives the text back.
pub read_literal-escaped :
    (s t : Text) → starts_quote t ≡ false → read_literal (escaped s ++ quote ∷ t) ≡ some (s, t)
unfolding read_literal escaped
read_literal-escaped [] [] h = refl
read_literal-escaped [] (d ∷ t) h = ground (arith, h)
read_literal-escaped (c ∷ s) t h = elim (Bool-cases (c == quote)) [
  | inl is_quote ↦
      let same : c ≡ quote = ground arith in rw (is_quote, read_literal-escaped s t h, same) refl
  | inr plain ↦ rw (plain, cons_nonempty c (escaped s) t plain, read_literal-escaped s t h) refl
]

escaped-append : (s t : Text) → escaped (s ++ t) ≡ escaped s ++ escaped t
unfolding escaped
escaped-append [] t = refl
escaped-append (c ∷ s) t = ground (arith, escaped-append s t)

-- `s.t`
abbrev pub dotted : Text → Text → Text
dotted s t = s ++ b'.' ∷ t

escaped-dotted :
    (s t rest : Text) → escaped s ++ b'.' ∷ (escaped t ++ rest) ≡ escaped (dotted s t) ++ rest
unfolding escaped
escaped-dotted s t rest =
    sym (append_assoc (escaped s) (b'.' ∷ escaped t) rest)
    ∙ ap (λ x. x ++ rest) (sym (escaped-append s (b'.' ∷ t)))

-- The statement up to its first literal, between its two literals, and after them.
abbrev pub histogram_head : Text
histogram_head =
    codes
      "SELECT h.step_number, TRY_CAST(h.range_high_key AS nvarchar(256)) AS range_high_key_text, h.range_rows, h.equal_rows, h.distinct_range_rows, h.average_range_rows FROM sys.stats st CROSS APPLY sys.dm_db_stats_histogram(st.object_id, st.stats_id) h WHERE st.object_id = OBJECT_ID("

abbrev pub histogram_middle : Text
histogram_middle = codes ") AND st.name = "

abbrev pub histogram_end : Text
histogram_end = codes " ORDER BY h.step_number"

-- Whatever the names are, quotes in them included, the query of a histogram is its fixed text with
-- two literals in it, which the server reads as the table's dotted name and the statistic's name: no
-- name can end its literal and go on as SQL.
pub histogram_literals :
    (schema_name table_name stat_name : Text)
    → (one two : Text) × (statistics_histogram_query schema_name table_name stat_name
        ≡ histogram_head ++ quote ∷ one)
      × (read_literal one ≡ some (dotted schema_name table_name, histogram_middle ++ quote ∷ two))
      × (read_literal two ≡ some (stat_name, histogram_end))
unfolding statistics_histogram_query rendered
histogram_literals schema_name table_name stat_name =
    let two = escaped stat_name ++ quote ∷ histogram_end in
    let rest = histogram_middle ++ quote ∷ two in
    let one = escaped schema_name ++ b'.' ∷ (escaped table_name ++ quote ∷ rest) in
    (
      one,
      two,
      refl,
      ap read_literal (escaped-dotted schema_name table_name (quote ∷ rest))
          ∙ read_literal-escaped (dotted schema_name table_name) rest refl,
      read_literal-escaped stat_name histogram_end refl,
    )

-- ===== src/Tools/Statements/Values.antt =====
-- tools/sql_tools.py: what `_recommend_top_statement_actions` does with the values of a row, with the
-- errors that Python raises where the type of a value does not fit.
use mcp_sql_server.Common.{
  Bool, Outcome, Text, [], ap, arith, codes, false, if◌then◌else◌, is_empty, leb_ℤ, ltb, ltb_ℤ,
  negsuc, none, ok, pos, pos_part, raise, refl, some, suc, take, text_of, value_error, zero, ℕ, ◌%◌,
  ◌*ℤ◌, ◌++◌, ◌+◌, ◌/◌, ◌==◌, ◌∷◌, ◌≡◌, ◌≤◌,
}
use mcp_sql_server.Tools.Statements.{
  Cell, Floats, float_value, int_value, no_value, overflow, text_value, unsupported,
}
use mcp_sql_server.Db.Reads.{rendered, shown_int}
use mcp_sql_server.Db.Columns.{decimal, show}

-- A number of at most three digits, with all three.
abbrev pub padded : ℕ → Text
padded n = (n / 100 % 10 + b'0') ∷ (n / 10 % 10 + b'0') ∷ (n % 10 + b'0') ∷ []

-- `f"{n:,}"`, on fuel: a number is never less than the groups of digits that it has.
unfoldable pub grouped : ℕ → ℕ → Text
unfolding decimal
grouped zero n = []
grouped (suc fuel) n =
    let rest = grouped fuel (n / 1000) in
    if ltb n 1000 then show n else rest ++ b',' ∷ padded (n % 1000)

-- The fuel that the groups of digits are written with is enough: more of it changes nothing.
grouped_enough : (a b n : ℕ) → n ≤ a → n ≤ b → grouped (suc a) n ≡ grouped (suc b) n
unfolding grouped
grouped_enough zero b n low high = let none_left : n ≡ 0 = omega arith in rw none_left refl
grouped_enough (suc a) zero n low high = let none_left : n ≡ 0 = omega arith in rw none_left refl
grouped_enough (suc a) (suc b) n low high =
    let rest = grouped_enough a b (n / 1000) (omega arith) (omega arith) in
    ap (λ g. if ltb n 1000 then show n else g ++ b',' ∷ padded (n % 1000)) rest

module _ {F : Type 0} (floats : Floats F) where
  -- `(val or 0) >= n / 100`: what is empty counts as 0, and any other text has no order with
  -- numbers.
  unfoldable pub cell_at_least : ℕ → Cell F → Outcome Bool
  cell_at_least n no_value = ok (n == 0)
  cell_at_least n (int_value m) = ok (leb_ℤ (pos n) (m *ℤ 100))
  cell_at_least n (float_value x) = ok (floats.at_least x n)
  cell_at_least n (text_value s) = if is_empty s then ok (n == 0) else raise unsupported

  -- `(val or 0) > 0`
  unfoldable pub cell_is_positive : Cell F → Outcome Bool
  cell_is_positive no_value = ok false
  cell_is_positive (int_value m) = ok (ltb_ℤ (pos 0) m)
  cell_is_positive (float_value x) = ok (floats.is_positive x)
  cell_is_positive (text_value s) = if is_empty s then ok false else raise unsupported

  -- `row.get(key) or 0`, as a value
  unfoldable pub or_zero : Cell F → Cell F
  or_zero no_value = int_value (pos 0)
  or_zero (int_value n) = int_value n
  or_zero (float_value x) = if floats.is_zero x then int_value (pos 0) else float_value x
  or_zero (text_value s) = if is_empty s then int_value (pos 0) else text_value s

  -- `(val or "")[:500]`; a number has no slices.
  unfoldable pub fragment : Cell F → Outcome (Cell F)
  fragment no_value = ok (text_value [])
  fragment (int_value (pos n)) = if n == 0 then ok (text_value []) else raise unsupported
  fragment (int_value (negsuc n)) = raise unsupported
  fragment (float_value x) = if floats.is_zero x then ok (text_value []) else raise unsupported
  fragment (text_value s) = ok (text_value (take 500 s))

  -- `str(val)`
  unfoldable pub shown_cell : Cell F → Text
  unfolding rendered
  shown_cell no_value = codes "None"
  shown_cell (int_value n) = shown_int n
  shown_cell (float_value x) = floats.shown x
  shown_cell (text_value s) = s

  -- `f"{val // 1000}"` of a number that is not negative; a text has no quotient.
  unfoldable pub shown_thousandth_of : Cell F → Outcome Text
  unfolding rendered
  shown_thousandth_of no_value = raise unsupported
  shown_thousandth_of (int_value n) = ok (shown_int (pos (pos_part n / 1000)))
  shown_thousandth_of (float_value x) = ok (floats.shown_thousandth x)
  shown_thousandth_of (text_value s) = raise unsupported

  -- `f"{(val or 0):.0%}"`; a text has no such format.
  unfoldable pub shown_ratio : Cell F → Outcome Text
  shown_ratio no_value = ok (floats.percent floats.zero_float)
  shown_ratio (int_value n) = elim (floats.of_int n) [
    | none ↦ raise overflow
    | some x ↦ ok (floats.percent x)
  ]
  shown_ratio (float_value x) =
      ok (floats.percent (if floats.is_zero x then floats.zero_float else x))
  shown_ratio (text_value s) =
      if is_empty s
      then ok (floats.percent floats.zero_float)
      else raise (value_error (text_of "Unknown format code '%'"))

  -- `f"{val:,}"` of a number that is not negative; a text has no such format.
  unfoldable pub shown_grouped_of : Cell F → Outcome Text
  unfolding grouped
  shown_grouped_of no_value = raise unsupported
  shown_grouped_of (int_value n) = ok (grouped (suc (pos_part n)) (pos_part n))
  shown_grouped_of (float_value x) = ok (floats.shown_grouped x)
  shown_grouped_of (text_value s) = raise (value_error (text_of "Cannot specify ','."))

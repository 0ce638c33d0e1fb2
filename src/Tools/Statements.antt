-- ===== src/Tools/Statements.antt =====
-- tools/sql_tools.py: the rows of `top_statements`, how they are normalised, and the findings and
-- recommendations that they give.
pub mod Values
pub mod Advice
pub mod Typed
pub mod Findings
pub mod Advised
pub mod Collect
pub mod Shapes
use mcp_sql_server.Db.Reads.{rendered, shown_int}
use mcp_sql_server.Db.Columns.{decimal, show}
use mcp_sql_server.Common.{
  Bool, Dict, Error, List, Option, Outcome, Text, [], codes, elem, false, if◌then◌else◌, is_empty,
  kept, leb_ℤ, length, lookup, ltb, ltb_ℤ, map, none, not, ok, or_default, other_error, pos,
  pos_part, raise, some, suc, take, text_eq, text_of, true, type_error, value_error, zero, ℕ, ℤ,
  ◌%◌, ◌*ℤ◌, ◌++◌, ◌+◌, ◌/◌, ◌==◌, ◌>>=◌, ◌>>◌, ◌∷◌,
}

-- A value of a row: None, a whole number, a number with a fraction, or a text.
pub data Cell (F : Type 0) : Type 0 where
  no_value : Cell F
  int_value : ℤ → Cell F
  float_value : F → Cell F
  text_value : Text → Cell F

abbrev pub Row : Type 0 → Type 0
Row F = Dict (Cell F)

-- What `int(x)` gives: a whole number; ValueError for a number that is none; OverflowError for an
-- infinite one.
pub data Truncated : Type 0 where
  truncated_to : ℤ → Truncated
  not_a_number infinite : Truncated

-- Floating-point numbers: `float(s)` of a text, with `none` for ValueError, and of a whole number,
-- with `none` for OverflowError; `int(x)`; `x >= n / 100`; `x > 0`; `x == 0`; `str(x)`,
-- `str(x // 1000)`, `f"{x:,}"` and `f"{x:.0%}"`.
pub record Floats (F : Type 0) : Type 0 where
  pub zero_float : F
  pub parse : Text → Option F
  pub of_int : ℤ → Option F
  pub truncated : F → Truncated
  pub at_least : F → ℕ → Bool
  pub is_positive : F → Bool
  pub is_zero : F → Bool
  pub shown : F → Text
  pub shown_thousandth : F → Text
  pub shown_grouped : F → Text
  pub percent : F → Text

-- Of these two errors only the class is that of Python.
abbrev pub overflow : Error
overflow = other_error (codes "OverflowError") (text_of "cannot convert to the type")

-- An operation that the type of a value does not have.
abbrev pub unsupported : Error
unsupported = type_error (text_of "unsupported type")

abbrev pub numeric_keys : List Text
numeric_keys =
    codes "weighted_avg_duration_us"
    ∷ codes "max_duration_us"
    ∷ codes "execution_count"
    ∷ codes "weighted_avg_cpu_time_us"
    ∷ codes "weighted_avg_logical_reads"
    ∷ codes "weighted_avg_physical_reads"
    ∷ codes "weighted_avg_log_bytes"
    ∷ []

abbrev pub counter_keys : List Text
counter_keys =
    codes "user_seeks"
    ∷ codes "user_scans"
    ∷ codes "user_lookups"
    ∷ codes "user_updates"
    ∷ codes "row_count"
    ∷ []

abbrev pub sql_text_limit : ℕ
sql_text_limit = 4000

-- A list of steps that may raise, in order.
unfoldable pub each_of : {A B : Type 0} → (A → Outcome B) → List A → Outcome (List B)
each_of f [] = ok []
each_of f (x ∷ xs) = do y ← f x; ys ← each_of f xs; ok (y ∷ ys)

-- `[x for x in xs if test(x)]`
unfoldable pub keep_where : {A : Type 0} → (A → Outcome Bool) → List A → Outcome (List A)
keep_where test [] = ok []
keep_where test (x ∷ xs) = do
  passes ← test x
  kept ← keep_where test xs
  ok (if passes then x ∷ kept else kept)

-- `{key: f(key, val) for key, val in row.items()}`
abbrev pub map_items : {A B : Type 0} → (Text → A → B) → Dict A → Dict B
map_items f [] = []
map_items f ((k, v) ∷ row) = (k, f k v) ∷ map_items f row

module _ {F : Type 0} (floats : Floats F) where
  -- `int(x)`, with 0 for ValueError
  unfoldable pub truncated_or_zero : Truncated → Outcome ℤ
  truncated_or_zero (truncated_to n) = ok n
  truncated_or_zero not_a_number = ok (pos 0)
  truncated_or_zero infinite = raise overflow

  -- `int(float(val))`, with 0 for TypeError and ValueError; an OverflowError is not caught.
  unfoldable pub whole : Cell F → Outcome ℤ
  unfolding truncated_or_zero
  whole no_value = ok (pos 0)
  whole (int_value n) = elim (floats.of_int n) [
    | none ↦ raise overflow
    | some x ↦ truncated_or_zero (floats.truncated x)
  ]
  whole (float_value x) = truncated_or_zero (floats.truncated x)
  whole (text_value s) = elim (floats.parse s) [
    | none ↦ ok (pos 0)
    | some x ↦ truncated_or_zero (floats.truncated x)
  ]

  abbrev pub shortened : Cell F → Cell F
  shortened no_value = no_value
  shortened (int_value n) = int_value n
  shortened (float_value x) = float_value x
  shortened (text_value s) =
      text_value (if ltb sql_text_limit (length s) then take sql_text_limit s else s)

  abbrev pub is_no_value : Cell F → Bool
  is_no_value no_value = true
  is_no_value (int_value n) = false
  is_no_value (float_value x) = false
  is_no_value (text_value s) = false

  unfoldable pub normal_cell : Text → Cell F → Outcome (Cell F)
  unfolding whole elem text_eq
  normal_cell key val =
      if is_no_value val
      then ok no_value
      else if elem key numeric_keys
      then (do n ← whole val; ok (int_value n))
      else if text_eq key (codes "query_sql_text")
      then ok (shortened val)
      else ok val

  abbrev pub normal_item : Text × Cell F → Outcome (Text × Cell F)
  normal_item (key, val) = do cell ← normal_cell key val; ok (key, cell)

  -- `_normalize_top_statement_rows`
  unfoldable pub normalize_top_statement_rows : List (Row F) → Outcome (List (Row F))
  unfolding normal_cell each_of
  normalize_top_statement_rows rows = each_of (each_of normal_item) rows

  unfoldable pub normal_object_cell : Text → Cell F → Cell F
  unfolding elem text_eq
  normal_object_cell key val =
      if not (is_no_value val)
      then val
      else if elem key counter_keys
      then int_value (pos 0)
      else if text_eq key (codes "scan_ratio")
      then float_value floats.zero_float
      else val

  -- `_normalize_object_pressure_rows`
  unfoldable pub normalize_object_pressure_rows : List (Row F) → List (Row F)
  unfolding normal_object_cell
  normalize_object_pressure_rows rows = map (map_items normal_object_cell) rows

  abbrev pub get : Text → Row F → Cell F
  get key row = or_default (lookup key row) no_value

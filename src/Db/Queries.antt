-- ===== src/Db/Queries.antt =====
-- db/connection_manager.py: what the operations of `ConnectionManager` do on a connection. The
-- driver is a parameter: a connection with its cursor is a state `C`, its values are `V`.
pub mod Cells
pub mod Plans
pub mod Commits
use mcp_sql_server.Security.Privilege.{sorted, to_set}
use mcp_sql_server.Db.Columns.{normalize_column_names}
use mcp_sql_server.Common.{
  Bool, Dict, Error, List, Option, Outcome, Text, [], and_then, codes, false, if◌then◌else◌, insert,
  length, lookup, map, none, not, ok, or_default, raise, some, strip, suc, text_of, true,
  value_error, zero, ℕ, ℤ, ◌++◌, ◌∷◌,
}

pub record Cursor (C V : Type 0) : Type 0 where
  pub execute : Text → List V → C → Outcome (Unit {0}) × C
  pub has_description : C → Bool
  pub names : C → List (Option Text)
  pub fetchone : C → Outcome (Option (List V)) × C
  pub fetchmany : ℤ → C → Outcome (List (List V)) × C
  pub fetchall : C → Outcome (List (List V)) × C
  pub commit : C → Outcome (Unit {0}) × C
  pub rowcount : C → ℤ

-- What the source asks of a value: `str(v)`, its truth, and `float(v)`, with `none` where that
-- raises; floats with their addition and `round(x, 4)`.
pub record Values (V F : Type 0) : Type 0 where
  pub of_text : Text → V
  pub text_of_value : V → Text
  pub is_true : V → Bool
  pub is_none : V → Bool
  pub float_of : V → Option F
  pub zero_float : F
  pub add_float : F → F → F
  pub round4 : F → F

-- `dict(zip(columns, row, strict=False))`, on top of the pairs before
unfoldable pub zip_onto : {V : Type 0} → Dict V → List Text → List V → Dict V
unfolding insert
zip_onto d (c ∷ columns) (x ∷ row) = zip_onto (insert c x d) columns row
zip_onto d columns row = d

abbrev pub row_dict : {V : Type 0} → List Text → List V → Dict V
row_dict columns row = zip_onto [] columns row

pub record Result (V : Type 0) : Type 0 where
  pub columns : List Text
  pub rows : List (Dict V)

pub record ProcResult (V : Type 0) : Type 0 where
  pub procedure : Text
  pub affected : ℤ
  pub has_result_set : Bool
  pub result : Result V

pub record Plan (F : Type 0) : Type 0 where
  pub estimated_cost : F
  pub accessed_objects : List Text

-- The codes of `object_type_map`.
abbrev pub object_type_map : Dict Text
object_type_map =
    (codes "table", codes "U")
    ∷ (codes "view", codes "V")
    ∷ (codes "procedure", codes "P")
    ∷ (codes "function", codes "FN")
    ∷ (codes "synonym", codes "SN")
    ∷ []

abbrev pub unknown_object_type : Error
unknown_object_type =
    value_error (
      text_of "INVALID_INPUT: object_type must be one of table, view, procedure, function, synonym")

-- `", ".join(["?"] * n)`
unfoldable pub placeholders : ℕ → Text
placeholders zero = []
placeholders (suc zero) = codes "?"
placeholders (suc (suc n)) = codes "?, " ++ placeholders (suc n)

-- `f"EXEC {proc_name} {placeholders}".strip()`
unfoldable pub exec_statement : Text → ℕ → Text
unfolding placeholders strip
exec_statement proc_name n = strip (codes "EXEC " ++ (proc_name ++ 32 ∷ placeholders n))

abbrev pub showplan_on : Text
showplan_on = codes "SET SHOWPLAN_ALL ON"

abbrev pub showplan_off : Text
showplan_off = codes "SET SHOWPLAN_ALL OFF"

module _ {C V : Type 0} (cursor : Cursor C V) where
  -- The names of the columns; the loop that makes them unique always ends.
  unfoldable pub columns_of : C → List Text
  unfolding normalize_column_names
  columns_of c = or_default (normalize_column_names (cursor.names c)) []

  abbrev pub row_dicts : List Text → List (List V) → List (Dict V)
  row_dicts columns rows = map (row_dict columns) rows

  -- `_op` of `execute_read_in_database`; that of `execute_read` gives the rows alone.
  unfoldable pub read_op : Text → ℤ → C → Outcome (Result V) × C
  unfolding columns_of zip_onto
  read_op sql max_rows c = and_then (cursor.execute sql [] c) (λ _ c.
      let columns = columns_of c in
      and_then (cursor.fetchmany max_rows c)
        (λ rows c. (ok (record { columns = columns; rows = row_dicts columns rows }), c)))

  -- `_op` of `fetch_single_row_in_database`
  unfoldable pub single_op : Text → C → Outcome (Dict V) × C
  unfolding columns_of zip_onto
  single_op sql c = and_then (cursor.execute sql [] c) (λ _ c.
      and_then (cursor.fetchone c)
        (λ row c. (ok (elim row [ none ↦ [] | some cells ↦ row_dict (columns_of c) cells ]), c)))

  -- `_op` of `list_objects`
  unfoldable pub objects_op : Text → V → C → Outcome (List (Dict V)) × C
  unfolding columns_of zip_onto
  objects_op sql code c = and_then (cursor.execute sql (code ∷ []) c) (λ _ c.
      let columns = columns_of c in
      and_then (cursor.fetchall c) (λ rows c. (ok (row_dicts columns rows), c)))

  -- `try: ... finally: cur.execute(sql)`: an error of the last statement takes the place of the
  -- result.
  unfoldable pub finally_execute {ℓ} : {A : Type ℓ} → Text → Outcome A × C → Outcome A × C
  finally_execute sql (o, c) =
      let (last, c') = cursor.execute sql [] c in (elim last [ ok _ ↦ o | raise e ↦ raise e ], c')

  -- `_op` of `explain_query`
  unfoldable pub explain_op : Text → C → Outcome (List Text × List (List V)) × C
  unfolding columns_of finally_execute
  explain_op sql c = and_then (cursor.execute showplan_on [] c) (λ _ c.
      finally_execute showplan_off (
        and_then (cursor.execute sql [] c) (λ _ c.
          let columns = columns_of c in
          and_then (cursor.fetchall c) (λ rows c. (ok (columns, rows), c)))))

  -- The body of `execute_proc`, on its connection.
  unfoldable pub proc_op : Text → List V → C → Outcome (ProcResult V) × C
  unfolding exec_statement columns_of zip_onto
  proc_op proc_name params c =
      let finish : Bool → Result V → C → Outcome (ProcResult V) × C = λ has_result_set result c.
        and_then (cursor.commit c) (λ _ c. (
          ok (record {
            procedure = proc_name;
            affected = cursor.rowcount c;
            has_result_set = has_result_set;
            result = result;
          }),
          c,
        )) in
      and_then (cursor.execute (exec_statement proc_name (length params)) params c) (λ _ c.
        if not (cursor.has_description c)
        then finish false (record { columns = []; rows = [] }) c
        else let columns = columns_of c in
          and_then (cursor.fetchall c)
            (λ rows c. finish true (record { columns = columns; rows = row_dicts columns rows }) c))

-- What `explain_query` makes of the rows of the plan.
module _ {V F : Type 0} (values : Values V F) where
  -- `str(item.get("Object"))` where that value is true
  unfoldable pub object_of : Dict V → List Text
  unfolding lookup
  object_of item = elim (lookup (codes "Object") item) [
    | none ↦ []
    | some x ↦ if values.is_true x then values.text_of_value x ∷ [] else []
  ]

  unfoldable pub cost_of : Dict V → Option F
  unfolding lookup
  cost_of item = elim (lookup (codes "TotalSubtreeCost") item) [
    | none ↦ none
    | some x ↦ if values.is_none x then none else values.float_of x
  ]

  unfoldable pub total_cost : F → List (Dict V) → F
  unfolding cost_of
  total_cost sum [] = sum
  total_cost sum (item ∷ rest) = elim (cost_of item) [
    | none ↦ total_cost sum rest
    | some x ↦ total_cost (values.add_float sum x) rest
  ]

  abbrev pub objects_of : List (Dict V) → List Text
  objects_of [] = []
  objects_of (item ∷ rest) = object_of item ++ objects_of rest

  unfoldable pub plan_of : List (Dict V) → Plan F
  unfolding total_cost sorted to_set object_of
  plan_of rows = record {
    estimated_cost = values.round4 (total_cost values.zero_float rows);
    accessed_objects = sorted (to_set (objects_of rows));
  }

-- ===== src/Db/Manager.antt =====
-- db/connection_manager.py: `ConnectionManager` over all its instances: its operations by the name of
-- an instance, its health checks and its report of the pools.
pub mod Isolated
pub mod Checks
use mcp_sql_server.Db.Queries.{
  Cursor, Plan, ProcResult, Result, Values, explain_op, object_type_map, objects_op, plan_of,
  proc_op, read_op, row_dicts, single_op, unknown_object_type, zip_onto,
}
use mcp_sql_server.Db.Reads.{run_read_operation}
use mcp_sql_server.Db.Pool.Sequential.{Driver, connect}
use mcp_sql_server.Db.Pool.{Pool, empty}
use mcp_sql_server.Models.{SqlInstanceConfig}
use mcp_sql_server.Common.{
  Dict, Error, List, Option, Outcome, Text, [], codes, if◌then◌else◌, insert, keys, length, lookup,
  lower, none, ok, or_default, other_error, raise, some, str, strip, ℕ, ℤ, ◌>>=◌, ◌∷◌,
}

pub data Condition : Type 0 where
  unknown_condition healthy unhealthy : Condition

-- The time and the latency of a check are those that the clock gave; the error is kept in place of
-- its text.
pub record Health : Type 0 where
  pub state : Condition
  pub checked_at : Option ℕ
  pub latency_ms : Option ℕ
  pub error : Option Error

pub record Manager : Type 0 where
  pub instances : Dict SqlInstanceConfig
  pub health : Dict Health
  pub pool_state : Dict Pool

-- `{item.id: item for item in instances if item.enabled}`
unfoldable pub enabled_onto :
    Dict SqlInstanceConfig → List SqlInstanceConfig → Dict SqlInstanceConfig
unfolding insert
enabled_onto d [] = d
enabled_onto d (inst ∷ rest) =
    let with_it = enabled_onto (insert inst.id inst d) rest in
    let without_it = enabled_onto d rest in if inst.enabled then with_it else without_it

-- `{k: value for k in d}`
abbrev pub constant_dict : {A B : Type 0} → B → Dict A → Dict B
constant_dict b [] = []
constant_dict b ((k, _) ∷ d) = (k, b) ∷ constant_dict b d

abbrev pub unchecked : Health
unchecked = record { state = unknown_condition; checked_at = none; latency_ms = none; error = none }

unfoldable pub init_manager : List SqlInstanceConfig → Manager
unfolding enabled_onto
init_manager instances =
    let enabled = enabled_onto [] instances in
    record {
      instances = enabled;
      health = constant_dict unchecked enabled;
      pool_state = constant_dict empty enabled;
    }

abbrev pub list_enabled_instances : Manager → List Text
list_enabled_instances m = keys m.instances

abbrev pub key_error : Text → Error
key_error instance_id = other_error (codes "KeyError") (str instance_id ∷ [])

abbrev pub pool_of : Manager → Text → Pool
pool_of m instance_id = or_default (lookup instance_id m.pool_state) empty

abbrev pub with_pool : Manager → Text → Pool → Manager
with_pool m instance_id p = record m { pool_state = insert instance_id p m.pool_state }

-- What the driver answers: for each instance and attempt, about connections; and the state in which
-- a connection is found.
pub record World (C V : Type 0) : Type 0 where
  pub driver : Text → ℕ → Driver
  pub cursor : Cursor C V
  pub session : Text → ℕ → ℕ → C

-- An operation on the pool of an instance. `none` is that its loop ran out of fuel, which it does
-- not. That the name is unknown is found inside the read's loop, which does not retry it.
unfoldable pub on_instance :
    {A : Type 0}
    → (SqlInstanceConfig → Pool → Option (Outcome A × Pool))
    → Text
    → Manager
    → Option (Outcome A × Manager)
unfolding lookup insert
on_instance operation instance_id m = elim (lookup instance_id m.instances) [
  | none ↦ some (raise (key_error instance_id), m)
  | some inst ↦ elim (operation inst (pool_of m instance_id)) [
    | none ↦ none
    | some (o, p) ↦ some (o, with_pool m instance_id p)
  ]
]

abbrev pub rows_of : {V : Type 0} → Outcome (Result V) → Outcome (List (Dict V))
rows_of (ok r) = ok r.rows
rows_of (raise e) = raise e

module _ {C V : Type 0} (world : World C V) where
  -- `_run_read_operation` with an operation on a connection
  unfoldable pub run_read :
      {A : Type 0}
      → (C → Outcome A × C)
      → Option Text
      → Text
      → Manager
      → Option (Outcome A × Manager)
  unfolding on_instance run_read_operation
  run_read operation database_override instance_id m =
      on_instance
        (λ inst p.
          run_read_operation (world.driver instance_id) inst database_override
            (λ attempt conn. (operation (world.session instance_id attempt conn)).0) p)
        instance_id m

  unfoldable pub execute_read :
      Text → Text → ℤ → Manager → Option (Outcome (List (Dict V)) × Manager)
  unfolding run_read read_op
  execute_read instance_id sql max_rows m =
      run_read (λ c. let (o, c') = read_op world.cursor sql max_rows c in (rows_of o, c')) none
        instance_id m

  unfoldable pub execute_read_in_database :
      Text → Text → Text → ℤ → Manager → Option (Outcome (Result V) × Manager)
  unfolding run_read read_op
  execute_read_in_database instance_id database_name sql max_rows m =
      run_read (read_op world.cursor sql max_rows) (some database_name) instance_id m

  -- `execute_catalog_query`, without its latency
  unfoldable pub execute_catalog_query :
      Text → Text → Text → ℤ → Manager → Option (Outcome (Result V × ℕ) × Manager)
  unfolding execute_read_in_database
  execute_catalog_query instance_id database_name sql max_rows m =
      elim (execute_read_in_database instance_id database_name sql max_rows m) [
        | none ↦ none
        | some (o, m') ↦ some (o >>= (λ r. ok (r, length r.rows)), m')
      ]

  unfoldable pub fetch_single_row_in_database :
      Text → Text → Text → Manager → Option (Outcome (Dict V) × Manager)
  unfolding run_read single_op
  fetch_single_row_in_database instance_id database_name sql m =
      run_read (single_op world.cursor sql) (some database_name) instance_id m

  -- The statement of `list_objects` is a parameter, a function of the number of rows.
  unfoldable pub list_objects :
      {F : Type 0}
      → Values V F
      → (ℤ → Text)
      → Text
      → Text
      → Text
      → ℤ
      → Manager
      → Option (Outcome (List (Dict V)) × Manager)
  unfolding run_read objects_op strip lookup
  list_objects values statement instance_id database_name object_type max_rows m =
      elim (lookup (strip (lower object_type)) object_type_map) [
        | none ↦ some (raise unknown_object_type, m)
        | some code ↦
            run_read (objects_op world.cursor (statement max_rows) (values.of_text code))
              (some database_name) instance_id m
      ]

  abbrev pub planned :
      {F : Type 0} → Values V F → Outcome (List Text × List (List V)) → Outcome (Plan F)
  unfolding plan_of zip_onto
  planned values (ok (columns, rows)) = ok (plan_of values (row_dicts world.cursor columns rows))
  planned values (raise e) = raise e

  unfoldable pub explain_query :
      {F : Type 0} → Values V F → Text → Text → Text → Manager → Option (Outcome (Plan F) × Manager)
  unfolding run_read explain_op plan_of zip_onto
  explain_query values instance_id database_name sql m =
      elim (run_read (explain_op world.cursor sql) (some database_name) instance_id m) [
        | none ↦ none
        | some (o, m') ↦ some (planned values o, m')
      ]

  -- `execute_proc` is not retried.
  unfoldable pub execute_proc :
      Text → Text → List V → Option Text → Manager → Option (Outcome (ProcResult V) × Manager)
  unfolding on_instance connect proc_op
  execute_proc instance_id proc_name params database_override m =
      on_instance
        (λ inst p.
          connect (world.driver instance_id 0) inst database_override
            (λ conn. (proc_op world.cursor proc_name params (world.session instance_id 0 conn)).0)
            p)
        instance_id m

-- ===== src/Db/Manager/Isolated.antt =====
-- An operation on an instance ends, and touches the pool of no other instance.
use mcp_sql_server.Db.Reads.{run_read_operation}
use mcp_sql_server.Db.Manager.{
  Manager, World, execute_catalog_query, execute_proc, execute_read_in_database, key_error,
  on_instance, pool_of, run_read, with_pool,
}
use mcp_sql_server.Db.Queries.{proc_op, read_op}
use mcp_sql_server.Db.Reads.Retry.{read_no_leak}
use mcp_sql_server.Db.Pool.Alone.{connect_no_leak}
use mcp_sql_server.Db.Pool.Sequential.{Apart, connect}
use mcp_sql_server.Db.Pool.{Pool}
use mcp_sql_server.Models.{SqlInstanceConfig}
use mcp_sql_server.Common.{
  Bool-cases, List, Option, Outcome, Text, ap, arith, false, if◌then◌else◌, inl, inr, length,
  lookup, lookup-insert, none, ok, raise, refl, some, text_eq, text_eq_sound, ℕ, ℤ, ◌>>=◌, ◌∙◌, ◌≡◌,
}

pub pool_of-with_pool :
    (m : Manager) (i j : Text) (p : Pool)
    → pool_of (with_pool m i p) j ≡ (if text_eq i j then p else pool_of m j)
pool_of-with_pool m i j p = ground (arith, lookup-insert i j p m.pool_state)

-- The connections in use of every instance are those that were.
abbrev pub SameUse : Manager → Manager → Type 0
SameUse m m' = (j : Text) → (pool_of m' j).in_use ≡ (pool_of m j).in_use

-- How an operation on an instance ends: it gives a result, which is KeyError where the instance is
-- not an enabled one; the enabled instances and the health table are as before, and so are the
-- pools of all other instances, and the connections in use of all.
pub record Settles {A : Type 0} (m : Manager) (instance_id : Text)
    (r : Option (Outcome A × Manager)) : Type 0 where
  pub outcome : Outcome A
  pub after : Manager
  pub ends : r ≡ some (outcome, after)
  pub same_instances : after.instances ≡ m.instances
  pub same_health : after.health ≡ m.health
  pub same_others : (j : Text) → text_eq instance_id j ≡ false → pool_of after j ≡ pool_of m j
  pub same_use : SameUse m after
  pub unknown_raises :
      lookup instance_id m.instances ≡ none → outcome ≡ raise (key_error instance_id)

on_instance-Settles :
    {A : Type 0} (operation : SqlInstanceConfig → Pool → Option (Outcome A × Pool))
    (instance_id : Text) (m : Manager)
    → ((inst : SqlInstanceConfig)
        → lookup instance_id m.instances ≡ some inst
        → (o : Outcome A) × (p : Pool) × (operation inst (pool_of m instance_id) ≡ some (o, p))
          × (p.in_use ≡ (pool_of m instance_id).in_use))
    → Settles m instance_id (on_instance operation instance_id m)
unfolding on_instance
on_instance-Settles operation instance_id m h = found (lookup instance_id m.instances) refl
  where
    found :
        (here : Option SqlInstanceConfig)
        → lookup instance_id m.instances ≡ here
        → Settles m instance_id (on_instance operation instance_id m)
    found none e = record {
      outcome = raise (key_error instance_id);
      after = m;
      ends = rw (e, on_instance) refl;
      same_instances = refl;
      same_health = refl;
      same_others = λ j n. refl;
      same_use = λ j. refl;
      unknown_raises = λ _. refl;
    }
    found (some inst) e =
        let (o, p, ran, same) = h inst e in
        record {
          outcome = o;
          after = with_pool m instance_id p;
          ends = rw (e, on_instance, ran) refl;
          same_instances = refl;
          same_health = refl;
          same_others = λ j n. pool_of-with_pool m instance_id j p ∙ (ground arith);
          same_use = λ j. elim (Bool-cases (text_eq instance_id j)) [
            | inl at ↦
                rw (pool_of-with_pool m instance_id j p, at, ← text_eq_sound instance_id j at) same
            | inr n ↦ rw (pool_of-with_pool m instance_id j p, n) refl
          ];
          unknown_raises = λ gone. cc;
        }

module _ {C V : Type 0} (world : World C V) where
  -- No connection that the driver may hand out anew, and no idle one, is in use.
  abbrev pub AllApart : Manager → Type 0
  AllApart m =
      (instance_id : Text) (attempt : ℕ)
      → Apart (world.driver instance_id attempt) (pool_of m instance_id)

  -- Every read through the manager, of a statement, of a single row, of a list of objects or of a
  -- plan, is such an operation.
  pub run_read-Settles :
      {A : Type 0} (operation : C → Outcome A × C) (database_override : Option Text)
      (instance_id : Text) (m : Manager)
      → AllApart m
      → Settles m instance_id (run_read world operation database_override instance_id m)
  unfolding run_read
  run_read-Settles operation database_override instance_id m apart =
      let body = λ (attempt conn : ℕ). (operation (world.session instance_id attempt conn)).0 in
      on_instance-Settles
        (λ inst p. run_read_operation (world.driver instance_id) inst database_override body p)
        instance_id m
        λ inst here.
          let (o, p, ran, same, _) =
            read_no_leak (world.driver instance_id) inst database_override body
              (pool_of m instance_id) (apart instance_id) in
          (o, p, ran, same)

  -- So is a call of a procedure.
  pub execute_proc-Settles :
      (instance_id proc_name : Text) (params : List V) (database_override : Option Text)
      (m : Manager)
      → AllApart m
      → Settles m instance_id (execute_proc world instance_id proc_name params database_override m)
  unfolding execute_proc
  execute_proc-Settles instance_id proc_name params database_override m apart =
      let body = λ (conn : ℕ).
        (proc_op world.cursor proc_name params (world.session instance_id 0 conn)).0 in
      on_instance-Settles
        (λ inst p. connect (world.driver instance_id 0) inst database_override body p) instance_id m
        λ inst here.
          connect_no_leak (world.driver instance_id 0) inst database_override body
            (pool_of m instance_id) (apart instance_id 0)

  -- And so is a query of the catalogue.
  pub execute_catalog_query-Settles :
      (instance_id database_name sql : Text) (max_rows : ℤ) (m : Manager)
      → AllApart m
      → Settles m instance_id (execute_catalog_query world instance_id database_name sql max_rows m)
  unfolding execute_catalog_query execute_read_in_database
  execute_catalog_query-Settles instance_id database_name sql max_rows m apart =
      let s =
        run_read-Settles (read_op world.cursor sql max_rows) (some database_name) instance_id m
          apart in
      record {
        outcome = s.outcome >>= (λ r. ok (r, length r.rows));
        after = s.after;
        ends = rw (execute_catalog_query, execute_read_in_database, s.ends) refl;
        same_instances = s.same_instances;
        same_health = s.same_health;
        same_others = s.same_others;
        same_use = s.same_use;
        unknown_raises =
            λ gone. ap (λ o. o >>= (λ r. ok (r, length r.rows))) (s.unknown_raises gone);
      }

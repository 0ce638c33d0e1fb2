-- ===== src/Tools/Stack.antt =====
-- The tools of tools/sql_tools.py on the connection manager of db/connection_manager.py.
use mcp_sql_server.Tools.Inputs.{validate_database_name}
use mcp_sql_server.Middleware.WriteGuard.{enforce}
use mcp_sql_server.Security.Privilege.{Level, read_level, write_level}
use mcp_sql_server.Tools.Authorize.{Context, resolve_actor_and_authorize}
use mcp_sql_server.Tools.Gate.{
  Backend, Request, State, actor_after, allow_request, attempt, call_procedure, check_procedure,
  conclude, exec_proc, on_database, read_database, run_read_tool, select, touch_session,
  transaction,
}
use mcp_sql_server.Db.Manager.Isolated.{
  AllApart, SameUse, Settles, execute_catalog_query-Settles, execute_proc-Settles, run_read-Settles,
}
use mcp_sql_server.Db.Manager.{
  Manager, World, execute_catalog_query, execute_proc, execute_read, rows_of,
}
use mcp_sql_server.Db.Queries.{read_op}
use mcp_sql_server.Db.Reads.{unexpected}
use mcp_sql_server.Common.{
  Bool-cases, Dict, List, Option, Outcome, Text, and_then-leads, codes, inl, inr, is_empty, none,
  ok, raise, refl, some, ℤ, ◌++◌, ◌≡◌,
}

-- An operation of the manager as the tools call it; it always ends.
abbrev pub settled : {A : Type 0} → Manager → Option (Outcome A × Manager) → Outcome A × Manager
settled m none = (raise unexpected, m)
settled m (some r) = r

abbrev pub with_result : {A B : Type 0} → (A → B) → Outcome A × Manager → Outcome B × Manager
with_result f (ok a, m) = (ok (f a), m)
with_result f (raise e, m) = (raise e, m)

module _ {C V : Type 0} (world : World C V) where
  -- The manager behind the tools.
  unfoldable pub manager_backend : Backend Manager (Dict V) V
  unfolding execute_read execute_catalog_query execute_proc
  manager_backend = record {
    execute_read =
        λ instance_id sql max_rows m. settled m (execute_read world instance_id sql max_rows m);
    execute_read_in_database = λ instance_id database_name sql max_rows m.
        with_result (λ r. r.0.rows)
          (settled m (execute_catalog_query world instance_id database_name sql max_rows m));
    execute_proc = λ instance_id proc_name params database_override m.
        with_result (λ r. r.result.rows)
          (settled m (execute_proc world instance_id proc_name params database_override m));
  }

  Keeps : {A : Type 0} → Manager → Outcome A × Manager → Type 0
  Keeps m r = (r.1.instances ≡ m.instances) × SameUse m r.1

  settled-Keeps :
      {A : Type 0} (m : Manager) (instance_id : Text) (r : Option (Outcome A × Manager))
      → Settles m instance_id r
      → Keeps m (settled m r)
  unfolding Keeps
  settled-Keeps m instance_id r s = rw s.ends (s.same_instances, s.same_use)

  with_result-Keeps :
      {A B : Type 0} (m : Manager) (f : A → B) (r : Outcome A × Manager)
      → Keeps m r
      → Keeps m (with_result f r)
  unfolding Keeps
  with_result-Keeps m f (ok a, m') k = k
  with_result-Keeps m f (raise e, m') k = k

  read-Keeps :
      (instance_id sql : Text) (max_rows : ℤ) (m : Manager)
      → AllApart world m
      → Keeps m (manager_backend.execute_read instance_id sql max_rows m)
  unfolding manager_backend execute_read
  read-Keeps instance_id sql max_rows m apart =
      settled-Keeps m instance_id (execute_read world instance_id sql max_rows m) (
        run_read-Settles world
          (λ c. let (o, c') = read_op world.cursor sql max_rows c in (rows_of o, c')) none
          instance_id m apart)

  named_read-Keeps :
      (instance_id database_name sql : Text) (max_rows : ℤ) (m : Manager)
      → AllApart world m
      → Keeps m (manager_backend.execute_read_in_database instance_id database_name sql max_rows m)
  unfolding manager_backend
  named_read-Keeps instance_id database_name sql max_rows m apart =
      let r = execute_catalog_query world instance_id database_name sql max_rows m in
      with_result-Keeps m (λ r. r.0.rows) (settled m r)
        (settled-Keeps m instance_id r
          (execute_catalog_query-Settles world instance_id database_name sql max_rows m apart))

  proc-Keeps :
      (instance_id proc_name : Text) (params : List V) (o : Option Text) (m : Manager)
      → AllApart world m
      → Keeps m (manager_backend.execute_proc instance_id proc_name params o m)
  unfolding manager_backend
  proc-Keeps instance_id proc_name params o m apart =
      let r = execute_proc world instance_id proc_name params o m in
      with_result-Keeps m (λ r. r.result.rows) (settled m r)
        (settled-Keeps m instance_id r
          (execute_proc-Settles world instance_id proc_name params o m apart))

  -- The state after a call, with the connections of the state before it.
  abbrev pub Holding : State Manager → State Manager → Type 0
  Holding s s' = (s'.database.instances ≡ s.database.instances) × SameUse s.database s'.database

  Before : State Manager → State Manager → Type 0
  Before s s' = s'.database ≡ s.database

  Before-Holding : (s s' : State Manager) → Before s s' → Holding s s'
  unfolding Before
  Before-Holding s s' same = rw same (refl, λ j. refl)

  attempt-Holding :
      (policy_check : State Manager → Outcome (Unit {0}))
      (action : State Manager → Outcome (List (Dict V)) × State Manager) (q : Request)
      (authorized : Outcome (Text × Context)) (s : State Manager)
      → ((s' : State Manager) → Before s s' → Holding s (action s').1)
      → Holding s (attempt manager_backend policy_check action q authorized s).1
  unfolding attempt touch_session allow_request Before
  attempt-Holding policy_check action q authorized s h =
      let B = Before s in
      let P = Holding s in
      let weaker = Before-Holding s in
      and_then-leads B P (authorized, s) _ weaker refl
        λ _ s1 h1.
          and_then-leads B P (touch_session manager_backend q (actor_after q.actor authorized) s1) _
            weaker h1
            λ _ s2 h2.
              and_then-leads B P
                (allow_request manager_backend q (actor_after q.actor authorized) s2) _ weaker h2
                λ _ s3 h3. and_then-leads B P (policy_check s3, s3) _ weaker h3 λ _ s4 h4. h s4 h4

  transaction-Holding :
      (required : Level) (policy_check : State Manager → Outcome (Unit {0}))
      (action : State Manager → Outcome (List (Dict V)) × State Manager) (sql : Text) (q : Request)
      (s : State Manager)
      → ((s' : State Manager) → Before s s' → Holding s (action s').1)
      → Holding s (transaction manager_backend required policy_check action sql q s).1
  unfolding transaction conclude
  transaction-Holding required policy_check action sql q s h =
      attempt-Holding policy_check action q
        (resolve_actor_and_authorize s.auth required q.token q.actor) s h

  reached-Holding :
      (f : Manager → Outcome (List (Dict V)) × Manager) (s s' : State Manager)
      → Before s s'
      → ((m : Manager) → AllApart world m → Keeps m (f m))
      → AllApart world s.database
      → Holding s (on_database manager_backend f s').1
  unfolding Before Keeps
  reached-Holding f s s' same keeps apart = rw same (keeps s.database apart)

  read_database-Holding :
      (sql : Text) (max_rows : ℤ) (q : Request) (s s' : State Manager)
      → AllApart world s.database
      → Before s s'
      → Holding s (read_database manager_backend sql max_rows q s').1
  unfolding read_database
  read_database-Holding sql max_rows q s s' apart same =
      elim (Bool-cases (is_empty q.database_name)) [
        | inl own ↦ rw own (
            reached-Holding (manager_backend.execute_read q.instance_id sql max_rows) s s' same
              (read-Keeps q.instance_id sql max_rows) apart)
        | inr named ↦ rw named (
            and_then-leads (Before s) (Holding s) (validate_database_name q.database_name, s') _
              (Before-Holding s) same
              λ db_name s4 h4.
                reached-Holding
                  (manager_backend.execute_read_in_database q.instance_id db_name sql max_rows) s s4
                  h4 (named_read-Keeps q.instance_id db_name sql max_rows) apart)
      ]

  call_procedure-Holding :
      (proc_name : Text) (params : List V) (q : Request) (s s' : State Manager)
      → AllApart world s.database
      → Before s s'
      → Holding s (call_procedure manager_backend proc_name params q s').1
  unfolding call_procedure
  call_procedure-Holding proc_name params q s s' apart same =
      elim (Bool-cases (is_empty q.database_name)) [
        | inl own ↦ rw own (
            reached-Holding (manager_backend.execute_proc q.instance_id proc_name params none) s s'
              same (proc-Keeps q.instance_id proc_name params none) apart)
        | inr named ↦ rw named (
            and_then-leads (Before s) (Holding s) (validate_database_name q.database_name, s') _
              (Before-Holding s) same
              λ db_name s4 h4.
                reached-Holding
                  (manager_backend.execute_proc q.instance_id proc_name params (some db_name)) s s4
                  h4 (proc-Keeps q.instance_id proc_name params (some db_name)) apart)
      ]

  -- Through the whole stack no call of a tool keeps a connection: a catalogue tool, `select` and
  -- `exec_proc`, refused or not, whatever the driver answers and whatever is raised on the way,
  -- leave in use in the pool of every instance the connections that were in use, and the enabled
  -- instances as they were. The driver hands out anew no connection that is in use, nor is an idle
  -- one in use.
  pub calls_no_leak :
      (sql proc_name : Text) (max_rows : ℤ) (params : List V) (q : Request) (s : State Manager)
      → AllApart world s.database
      → Holding s (run_read_tool manager_backend sql max_rows q s).1
        × Holding s (select manager_backend sql q s).1
        × Holding s (exec_proc manager_backend proc_name params q s).1
  unfolding run_read_tool select exec_proc
  calls_no_leak sql proc_name max_rows params q s apart = (
    transaction-Holding read_level (λ s. enforce s.write_guard q.tool sql)
        (read_database manager_backend sql max_rows q) sql q s
        (λ s' same. read_database-Holding sql max_rows q s s' apart same),
    transaction-Holding read_level (λ s. enforce s.write_guard q.tool sql)
        (λ s. read_database manager_backend sql s.max_result_rows q s) sql q s
        (λ s' same. read_database-Holding sql s'.max_result_rows q s s' apart same),
    transaction-Holding write_level (check_procedure manager_backend proc_name q)
        (call_procedure manager_backend proc_name params q) (codes "EXEC " ++ proc_name) q s
        (λ s' same. call_procedure-Holding proc_name params q s s' apart same),
  )

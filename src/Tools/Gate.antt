-- ===== src/Tools/Gate.antt =====
-- tools/sql_tools.py: a call of a tool from its authorisation to its audit event: `_run_read_tool`,
-- `_select` and `_exec_proc`. What the caller's context is told, the log lines and the metrics are
-- left out: they read the state and do not change it.
pub mod Events
pub mod Audit
pub mod Access
use mcp_sql_server.Tools.Authorize.{Context, Token, error_code_of, resolve_actor_and_authorize}
use mcp_sql_server.Tools.Inputs.{validate_database_name}
use mcp_sql_server.Security.Privilege.{Level, read_level, write_level}
use mcp_sql_server.Middleware.WriteGuard.{WriteGuard, enforce, validate_procedure}
use mcp_sql_server.Middleware.RateLimit.{Limiter, allow}
use mcp_sql_server.Security.Sessions.{SessionManager, touch}
use mcp_sql_server.Models.{AuthConfig}
use mcp_sql_server.Common.{
  Bool, Error, List, Message, Option, Outcome, Text, [], and_then, codes, false, if◌then◌else◌,
  is_empty, length, none, ok, permission_error, raise, some, true, ℕ, ℤ, ◌++◌, ◌+◌, ◌>>=◌, ◌>>◌,
  ◌∷◌,
}

pub data Decision : Type 0 where
  allow_decision deny_decision : Decision

-- What `_log_audit_event` hands to `log_event`, without the latency.
pub record Event : Type 0 where
  pub request_id : Text
  pub actor : Text
  pub tool : Text
  pub instance_id : Text
  pub sql : Text
  pub decision : Decision
  pub rows : ℕ
  pub error_code : Option Message
  pub auth_ctx : Option Context

-- The database as the tools see it: the operations of the connection manager on its state `D`, with
-- rows of type `R` and parameters of type `V`.
pub record Backend (D R V : Type 0) : Type 0 where
  pub execute_read : Text → Text → ℤ → D → Outcome (List R) × D
  pub execute_read_in_database : Text → Text → Text → ℤ → D → Outcome (List R) × D
  pub execute_proc : Text → Text → List V → Option Text → D → Outcome (List R) × D

-- `auth`, `policy` and the rest of the server's state that a call reads or changes.
pub record State (D : Type 0) : Type 0 where
  pub auth : Option AuthConfig
  pub session_manager : SessionManager
  pub rate_limiter : Limiter
  pub write_guard : WriteGuard
  pub max_result_rows : ℤ
  pub denied_requests : ℕ
  pub audit_log : List Event
  pub database : D

-- A call: its arguments, the caller's token and session, and the clock at its three readings.
pub record Request : Type 0 where
  pub request_id : Text
  pub tool : Text
  pub instance_id : Text
  pub actor : Text
  pub database_name : Text
  pub mcp_session_id : Option Text
  pub token : Option Token
  pub touch_time : ℕ
  pub cleanup_time : ℕ
  pub allow_time : ℕ

abbrev pub actor_after : {A : Type 0} → Text → Outcome (Text × A) → Text
actor_after actor (ok (resolved, _)) = resolved
actor_after actor (raise e) = actor

abbrev pub context_after : {A : Type 0} → Outcome (Text × A) → Option A
context_after (ok (_, ctx)) = some ctx
context_after (raise e) = none

unfoldable pub is_denial : Error → Bool
is_denial (permission_error _) = true
is_denial _ = false

module _ {D R V : Type 0} (backend : Backend D R V) where
  -- `state.session_manager.touch(...)`, then `state.rate_limiter.allow(actor)`
  unfoldable pub touch_session : Request → Text → State D → Outcome (Unit {0}) × State D
  unfolding touch
  touch_session q actor s =
      let (o, m) =
        touch s.session_manager q.touch_time q.cleanup_time actor q.request_id q.mcp_session_id in
      (o, record s { session_manager = m })

  unfoldable pub allow_request : Request → Text → State D → Outcome (Unit {0}) × State D
  unfolding allow
  allow_request q actor s =
      let (o, l) = allow s.rate_limiter q.allow_time actor in (o, record s { rate_limiter = l })

  -- The body of the `try`: authorisation, session, quota, policy, and then the database.
  unfoldable pub attempt :
      {A : Type 0}
      → (State D → Outcome (Unit {0}))
      → (State D → Outcome A × State D)
      → Request
      → Outcome (Text × Context)
      → State D
      → Outcome A × State D
  unfolding touch_session allow_request
  attempt policy_check action q authorized s =
      let actor = actor_after q.actor authorized in
      and_then (authorized, s)
        (λ _ s. and_then (touch_session q actor s) (λ _ s.
          and_then (allow_request q actor s)
            (λ _ s. and_then (policy_check s, s) (λ _ s. action s))))

  unfoldable pub event_of : Text → Request → Outcome (Text × Context) → Outcome (List R) → Event
  unfolding error_code_of
  event_of sql q authorized (ok rows) = record {
    request_id = q.request_id;
    actor = actor_after q.actor authorized;
    tool = q.tool;
    instance_id = q.instance_id;
    sql = sql;
    decision = allow_decision;
    rows = length rows;
    error_code = none;
    auth_ctx = context_after authorized;
  }
  event_of sql q authorized (raise e) = record {
    request_id = q.request_id;
    actor = actor_after q.actor authorized;
    tool = q.tool;
    instance_id = q.instance_id;
    sql = sql;
    decision = deny_decision;
    rows = 0;
    error_code = some (error_code_of e);
    auth_ctx = context_after authorized;
  }

  abbrev pub denials : Outcome (List R) → ℕ
  denials (ok rows) = 0
  denials (raise e) = if is_denial e then 1 else 0

  -- The `except` and `finally` clauses.
  unfoldable pub conclude :
      Text
      → Request
      → Outcome (Text × Context)
      → Outcome (List R) × State D
      → Outcome (List R) × State D
  unfolding event_of is_denial
  conclude sql q authorized (o, s) = (
    o,
    record s {
      denied_requests = s.denied_requests + denials o;
      audit_log = s.audit_log ++ event_of sql q authorized o ∷ [];
    },
  )

  unfoldable pub transaction :
      Level
      → (State D → Outcome (Unit {0}))
      → (State D → Outcome (List R) × State D)
      → Text
      → Request
      → State D
      → Outcome (List R) × State D
  unfolding attempt conclude resolve_actor_and_authorize
  transaction required policy_check action sql q s =
      let authorized = resolve_actor_and_authorize s.auth required q.token q.actor in
      conclude sql q authorized (attempt policy_check action q authorized s)

  -- An operation of the database on the whole state.
  abbrev pub on_database : (D → Outcome (List R) × D) → State D → Outcome (List R) × State D
  on_database f s = let (o, d) = f s.database in (o, record s { database = d })

  -- The two ways of a read: in the instance's own database, or in the one that is named.
  unfoldable pub read_database : Text → ℤ → Request → State D → Outcome (List R) × State D
  unfolding validate_database_name
  read_database sql max_rows q s =
      if is_empty q.database_name
      then on_database (backend.execute_read q.instance_id sql max_rows) s
      else and_then (validate_database_name q.database_name, s)
          (λ db_name s.
            on_database (backend.execute_read_in_database q.instance_id db_name sql max_rows) s)

  -- `_run_read_tool`
  unfoldable pub run_read_tool : Text → ℤ → Request → State D → Outcome (List R) × State D
  unfolding transaction read_database enforce
  run_read_tool sql max_rows q s =
      transaction read_level (λ s. enforce s.write_guard q.tool sql) (read_database sql max_rows q)
        sql q s

  -- `_select`
  unfoldable pub select : Text → Request → State D → Outcome (List R) × State D
  unfolding transaction read_database enforce
  select sql q s =
      transaction read_level (λ s. enforce s.write_guard q.tool sql)
        (λ s. read_database sql s.max_result_rows q s) sql q s

  unfoldable pub check_procedure : Text → Request → State D → Outcome (Unit {0})
  unfolding validate_procedure enforce
  check_procedure proc_name q s = do
    validate_procedure s.write_guard q.tool proc_name
    enforce s.write_guard q.tool (codes "EXEC __policy_probe__")

  unfoldable pub call_procedure : Text → List V → Request → State D → Outcome (List R) × State D
  unfolding validate_database_name
  call_procedure proc_name params q s =
      if is_empty q.database_name
      then on_database (backend.execute_proc q.instance_id proc_name params none) s
      else and_then (validate_database_name q.database_name, s)
          (λ db_name s.
            on_database (backend.execute_proc q.instance_id proc_name params (some db_name)) s)

  -- `_exec_proc`
  unfoldable pub exec_proc : Text → List V → Request → State D → Outcome (List R) × State D
  unfolding transaction check_procedure call_procedure
  exec_proc proc_name params q s =
      transaction write_level (check_procedure proc_name q) (call_procedure proc_name params q)
        (codes "EXEC " ++ proc_name) q s

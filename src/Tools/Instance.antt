-- ===== src/Tools/Instance.antt =====
-- tools/sql_tools.py: the tools that each instance has on its own: `_ping`, `_list_tools`,
-- `_list_object`, `_execute_query` and `_top_statements`, from the first check of their arguments to
-- their audit event; and `_extract_sql_error`.
pub mod Handlers
pub mod Guarded
pub mod Recorded
use mcp_sql_server.Tools.Gate.{
  Backend, Decision, Event, Request, State, actor_after, allow_decision, attempt, context_after,
  deny_decision,
}
use mcp_sql_server.Tools.Authorize.{Context, resolve_actor_and_authorize}
use mcp_sql_server.Security.Privilege.{read_level}
use mcp_sql_server.Db.Queries.{Plan, Result}
use mcp_sql_server.Db.Columns.{all_digits, value}
use mcp_sql_server.Db.Reads.{args_of}
use mcp_sql_server.Common.{
  Bool, Dict, Error, List, Message, Option, Outcome, Text, [], all, codes, false, if◌then◌else◌,
  is_digit, is_empty, lit, none, ok, permission_error, raise, runtime_error, some, split, str,
  strip, true, value_error, ℕ, ℤ, ◌&&◌, ◌++◌, ◌+◌, ◌==◌, ◌||◌, ◌∷◌,
}

-- `s.strip("( ")`
abbrev pub is_margin : ℕ → Bool
is_margin c = c == b'(' || c == 32

unfoldable pub strip_left : Text → Text
strip_left [] = []
strip_left (c ∷ s) = let rest = strip_left s in if is_margin c then rest else c ∷ s

unfoldable pub strip_right : Text → Text
strip_right [] = []
strip_right (c ∷ s) = let r = strip_right s in if is_empty r && is_margin c then [] else c ∷ r

-- The number of the first part between `)` that has digits only.
unfoldable pub first_number : List Text → Option ℕ
unfolding strip_left strip_right value all is_digit
first_number [] = none
first_number (token ∷ tokens) =
    let rest = first_number tokens in
    let part = strip_right (strip_left token) in
    if all_digits part then some (value 0 part) else rest

-- Without the description.
pub record SqlError : Type 0 where
  pub sqlstate : Text
  pub sql_message : Text
  pub sql_error_number : Option ℕ

abbrev pub sql_error : Text → Text → Option SqlError
sql_error sqlstate message =
    if is_empty sqlstate
    then none
    else some (record {
      sqlstate = sqlstate;
      sql_message = message;
      sql_error_number = first_number (split b')' message);
    })

-- `_extract_sql_error`
unfoldable pub extract_sql_error : Error → Option SqlError
unfolding args_of strip first_number split
extract_sql_error e = elim (args_of e) [
  | [] ↦ none
  | first ∷ rest ↦ elim rest [
    | [] ↦ sql_error (codes "HY000") (strip first)
    | second ∷ others ↦ sql_error (strip first) (strip second)
  ]
]

-- Which exceptions a tool lets through as they are: it has clauses for them.
pub data Clauses : Type 0 where
  no_clauses value_clause both_clauses : Clauses

unfoldable pub passes : Clauses → Error → Bool
passes value_clause (value_error _) = true
passes both_clauses (value_error _) = true
passes both_clauses (permission_error _) = true
passes _ _ = false

-- `str(exc)`
abbrev pub message_of : (Error → Text) → Error → Message
message_of shown_error e = str (shown_error e) ∷ []

-- `error_code` of an exception that is not let through
unfoldable pub wrapped_code : (Error → Text) → Error → Message
unfolding extract_sql_error
wrapped_code shown_error e = elim (extract_sql_error e) [
  | none ↦ lit "SQL_EXECUTION_ERROR: " ∷ message_of shown_error e
  | some x ↦ lit "SQL_ERROR_" ∷ str x.sqlstate ∷ lit ": " ∷ str x.sql_message ∷ []
]

unfoldable pub code_of : (Error → Text) → Clauses → Error → Message
unfolding passes wrapped_code
code_of shown_error let_through e =
    if passes let_through e then message_of shown_error e else wrapped_code shown_error e

-- What the caller gets.
unfoldable pub seen : (Error → Text) → Clauses → Error → Error
unfolding passes wrapped_code
seen shown_error let_through e =
    if passes let_through e then e else runtime_error (wrapped_code shown_error e)

-- The database as these tools see it: the operations of the connection manager on its state `D`.
pub record Operations (D V G : Type 0) : Type 0 where
  pub fetch_single_row : Text → Text → Text → D → Outcome (Dict V) × D
  pub list_objects : Text → Text → Text → D → Outcome (List (Dict V)) × D
  pub read_in_database : Text → Text → Text → ℤ → D → Outcome (Result V) × D
  pub explain : Text → Text → Text → D → Outcome (Plan G) × D

module _ {D R V : Type 0} (backend : Backend D R V) (shown_error : Error → Text) where
  -- The event of a call, without its latency.
  unfoldable pub tool_event :
      Text → Request → Outcome (Text × Context) → Decision → ℕ → Option Message → Event
  tool_event sql q authorized decision rows error_code = record {
    request_id = q.request_id;
    actor = actor_after q.actor authorized;
    tool = q.tool;
    instance_id = q.instance_id;
    sql = sql;
    decision = decision;
    rows = rows;
    error_code = error_code;
    auth_ctx = context_after authorized;
  }

  -- The `except` and `finally` clauses. Every exception is counted as a denial.
  unfoldable pub finish_call :
      {B : Type 0}
      → Clauses
      → Text
      → (B → ℕ)
      → Request
      → Outcome (Text × Context)
      → Outcome B × State D
      → Outcome B × State D
  unfolding tool_event code_of seen
  finish_call let_through sql rows q authorized (ok b, s) = (
    ok b,
    record s {
      audit_log = s.audit_log ++ tool_event sql q authorized allow_decision (rows b) none ∷ [];
    },
  )
  finish_call let_through sql rows q authorized (raise e, s) = (
    raise (seen shown_error let_through e),
    record s {
      denied_requests = s.denied_requests + 1;
      audit_log =
          s.audit_log
          ++ tool_event sql q authorized deny_decision 0 (some (code_of shown_error let_through e))
            ∷ [];
    },
  )

  -- A call: the check of the arguments, which may raise before the authorisation, and then the gates
  -- and the database. The authorisation is a function of the state, so that it may be named before
  -- the check.
  unfoldable pub tool_call :
      {A B : Type 0}
      → Clauses
      → Text
      → (B → ℕ)
      → Outcome A
      → (State D → Outcome (Unit {0}))
      → (A → D → Outcome B × D)
      → Request
      → State D
      → Outcome B × State D
  unfolding attempt resolve_actor_and_authorize finish_call
  tool_call let_through sql rows (raise e) policy_check action q s =
      finish_call let_through sql rows q (raise e) (raise e, s)
  tool_call let_through sql rows (ok a) policy_check action q s =
      let authorized = resolve_actor_and_authorize s.auth read_level q.token q.actor in
      finish_call let_through sql rows q authorized (
        attempt backend policy_check
          (λ s. let (o, d) = action a s.database in (o, record s { database = d })) q authorized s)

abbrev pub no_policy : {D : Type 0} → State D → Outcome (Unit {0})
no_policy s = ok tt

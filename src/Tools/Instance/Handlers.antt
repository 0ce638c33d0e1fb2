-- ===== src/Tools/Instance/Handlers.antt =====
-- tools/sql_tools.py: the bodies of `_ping`, `_list_tools`, `_list_object`, `_execute_query` and
-- `_top_statements`, with what they catch. Of an answer, the date and the names that it repeats are left out.
use mcp_sql_server.Common.{
  Dict, Error, List, Message, Option, Outcome, Text, [], and_then, codes, if◌then◌else◌, is_empty,
  keep, length, lit, none, ok, pos, raise, some, starts_with, text_eq, ℕ, ℤ, ◌++◌, ◌+◌, ◌>>=◌, ◌∷◌,
}
use mcp_sql_server.Tools.Gate.{Backend, Request, State, allow_decision, attempt, deny_decision}
use mcp_sql_server.Tools.Authorize.{Context, resolve_actor_and_authorize}
use mcp_sql_server.Tools.Inputs.{validate_database_name, validate_positive_int, validate_view_mode}
use mcp_sql_server.Tools.Reports.{Report}
use mcp_sql_server.Tools.Statements.{Floats, Row}
use mcp_sql_server.Tools.Statements.Collect.{Exceptions, Summary, top_statements_body}
use mcp_sql_server.Tools.Instance.{
  Operations, both_clauses, message_of, no_clauses, no_policy, tool_call, tool_event, value_clause,
}
use mcp_sql_server.Middleware.WriteGuard.{enforce}
use mcp_sql_server.Security.Privilege.{read_level}
use mcp_sql_server.Db.Queries.{Plan, Result}

abbrev pub ping_sql : Text
ping_sql =
    codes
      "SELECT @@SERVERNAME AS instance_name, CAST(SERVERPROPERTY('MachineName') AS NVARCHAR(128)) AS hostname, CAST(SERVERPROPERTY('ProductVersion') AS NVARCHAR(128)) AS database_version, CONVERT(NVARCHAR(64), CONNECTIONPROPERTY('local_net_address')) AS ip_address, CONVERT(NVARCHAR(33), SYSUTCDATETIME(), 127) AS current_system_date"

abbrev pub list_tools_sql : Text
list_tools_sql =
    codes
      "SELECT @@SERVERNAME AS instance_name, CONVERT(NVARCHAR(64), CONNECTIONPROPERTY('local_net_address')) AS ip_address, CONVERT(NVARCHAR(33), SYSUTCDATETIME(), 127) AS current_system_date"

-- The answer of `_list_tools`, without the descriptions of the tools, which are constants.
pub record ToolList (V : Type 0) : Type 0 where
  pub info : Dict V
  pub tools : List Text

-- The registered tools of the instance with this number.
unfoldable pub matching_tools : Text → List Text → List Text
unfolding keep starts_with
matching_tools number registered_tools =
    keep (starts_with (codes "db_" ++ number ++ codes "_sql2019_")) registered_tools

abbrev pub list_object_sql : Text → Text → Text
list_object_sql database_name object_type =
    codes "LIST_OBJECT database=" ++ database_name ++ codes " type=" ++ object_type

-- The answer of `_ping`: the row of an instance that can be reached, or the error's code.
pub data Ping (V : Type 0) : Type 0 where
  accessible : Dict V → Ping V
  unreachable : Message → Ping V

-- The answer of `_execute_query`, and its plan if it was asked for: the error is that of
-- `explain_query`.
pub record Query (V G : Type 0) : Type 0 where
  pub view_mode : Text
  pub result : Result V
  pub plan : Option (Outcome (Plan G))

module _ {D R V G : Type 0} (backend : Backend D R V) (shown_error : Error → Text)
    (operations : Operations D V G) where
  -- The `except` and `finally` clauses of `_ping`
  unfoldable pub finish_ping :
      Request → Outcome (Text × Context) → Outcome (Dict V) × State D → Ping V × State D
  unfolding tool_event
  finish_ping q authorized (ok payload, s) =
      let rows = if is_empty payload then 0 else 1 in
      (
        accessible payload,
        record s {
          audit_log =
              s.audit_log
              ++ tool_event backend shown_error ping_sql q authorized allow_decision rows none ∷ [];
        },
      )
  finish_ping q authorized (raise e, s) =
      let error_code = lit "INSTANCE_UNREACHABLE: " ∷ message_of shown_error e in
      (
        unreachable error_code,
        record s {
          denied_requests = s.denied_requests + 1;
          audit_log =
              s.audit_log
              ++ tool_event backend shown_error ping_sql q authorized deny_decision 0
                  (some error_code)
                ∷ [];
        },
      )

  unfoldable pub ping_action : Request → State D → Outcome (Dict V) × State D
  ping_action q s =
      let (o, d) = operations.fetch_single_row q.instance_id (codes "master") ping_sql s.database in
      (o, record s { database = d })

  -- `_ping`
  unfoldable pub ping : Request → State D → Ping V × State D
  unfolding finish_ping attempt resolve_actor_and_authorize ping_action
  ping q s =
      let authorized = resolve_actor_and_authorize s.auth read_level q.token q.actor in
      finish_ping q authorized (attempt backend no_policy (ping_action q) q authorized s)

  unfoldable pub tools_action : List Text → Request → D → Outcome (ToolList V) × D
  tools_action matching q d =
      and_then (operations.fetch_single_row q.instance_id (codes "master") list_tools_sql d)
        (λ info d. (ok (record { info = info; tools = matching }), d))

  -- `_list_tools`, for the tools that are registered
  unfoldable pub list_tools : Text → List Text → Request → State D → Outcome (ToolList V) × State D
  unfolding tool_call matching_tools tools_action
  list_tools number registered_tools q s =
      tool_call backend shown_error no_clauses list_tools_sql (λ r. length r.tools) (ok tt)
        no_policy (λ _. tools_action (matching_tools number registered_tools) q) q s

  -- `_list_object`, whose answer is its rows
  unfoldable pub list_object : Text → Request → State D → Outcome (List (Dict V)) × State D
  unfolding tool_call
  list_object object_type q s =
      tool_call backend shown_error value_clause (list_object_sql q.database_name object_type)
        length (ok tt) no_policy
        (λ _. operations.list_objects q.instance_id q.database_name object_type) q s

  unfoldable pub explain_if_full : Text → Text → Request → Result V → D → Outcome (Query V G) × D
  explain_if_full normalized sql q result d =
      let (plan, d') = operations.explain q.instance_id q.database_name sql d in
      if text_eq normalized (codes "FULL")
      then (ok (record { view_mode = normalized; result = result; plan = some plan }), d')
      else (ok (record { view_mode = normalized; result = result; plan = none }), d)

  unfoldable pub query_action : Text → ℤ → Request → Text → D → Outcome (Query V G) × D
  unfolding explain_if_full
  query_action sql max_result_rows q normalized d =
      and_then (operations.read_in_database q.instance_id q.database_name sql max_result_rows d)
        (explain_if_full normalized sql q)

  -- `_execute_query`. The gates leave `max_result_rows` as it is.
  unfoldable pub execute_query : Text → Text → Request → State D → Outcome (Query V G) × State D
  unfolding tool_call validate_view_mode enforce query_action
  execute_query sql mode q s =
      tool_call backend shown_error both_clauses sql (λ r. length r.result.rows)
        (validate_view_mode mode) (λ s. enforce s.write_guard q.tool sql)
        (query_action sql s.max_result_rows q) q s

-- The checks of `_top_statements`
unfoldable pub check_inputs : Text → ℤ → ℤ → Text → Outcome (Text × ℤ × ℤ × Text)
unfolding validate_database_name validate_positive_int validate_view_mode
check_inputs database_name top_n lookback_minutes mode = do
  db_name ← validate_database_name database_name
  size ← validate_positive_int top_n (codes "top_n") (pos 1) (pos 500)
  minutes ← validate_positive_int lookback_minutes (codes "lookback_minutes") (pos 1) (pos 10080)
  normalized ← validate_view_mode mode
  ok (db_name, size, minutes, normalized)

module _ {D R V F : Type 0} (backend : Backend D R V) (floats : Floats F) (exceptions : Exceptions)
    (execute : Text → Text → ℤ → D → Outcome (List (Row F)) × D) where
  -- `_top_statements`. Its answer names the statements in both modes.
  unfoldable pub top_statements :
      ℕ
      → ℤ
      → ℤ
      → Text
      → Request
      → State D
      → Outcome (Report Summary (Row F) × List (Row F)) × State D
  unfolding tool_call check_inputs enforce top_statements_body
  top_statements instance_number top_n lookback_minutes mode q s =
      tool_call backend exceptions.shown_error both_clauses (codes "TOP_STATEMENTS")
        (λ r. r.0.summary.statements_analyzed + r.0.summary.objects_checked)
        (check_inputs q.database_name top_n lookback_minutes mode)
        (λ s. enforce s.write_guard q.tool (codes "SELECT 1"))
        (λ (db_name, size, minutes, _).
          top_statements_body floats exceptions (execute db_name) instance_number db_name q.tool
            size minutes)
        q s

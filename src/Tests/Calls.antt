-- ===== src/Tests/Calls.antt =====
-- A call of a tool at a concrete state: the database counts its operations.
use mcp_sql_server.Middleware.WriteGuard.Lead.{nothing, space}
use mcp_sql_server.Security.Sessions
use mcp_sql_server.Middleware.RateLimit
use mcp_sql_server.Tools.Gate.Access.{InGroup, Refused, exec_guarded, select_write-Refused}
use mcp_sql_server.Tools.Gate.Audit.{Logged, calls-Logged}
use mcp_sql_server.Tools.Gate.{Backend, Request, State, exec_proc, run_read_tool, select}
use mcp_sql_server.Tools.Authorize.{auth_enforced, missing, text}
use mcp_sql_server.Security.Privilege.{items, read_level, write_level}
use mcp_sql_server.Middleware.WriteGuard.Procedures.{IsListed}
use mcp_sql_server.Models.{AuthConfig, default_auth, default_policy}
use mcp_sql_server.Common.{
  Text, [], any, codes, elem, false, is_space, lower_char, none, ok, pos, refl, some, text_eq, true,
  upper_char, ℕ, ◌++◌, ◌+ℤ◌, ◌+◌, ◌∷◌, ◌≡◌, ◌⊎◌,
}

abbrev pub backend : Backend ℕ ℕ ℕ
backend = record {
  execute_read = λ _ _ _ n. (ok (7 ∷ []), n + 1);
  execute_read_in_database = λ _ _ _ _ n. (ok (8 ∷ []), n + 1);
  execute_proc = λ _ _ _ _ n. (ok [], n + 1);
}

abbrev exec_tool : Text
exec_tool = codes "db_01_exec_proc"

abbrev auth : AuthConfig
auth = record default_auth {
  auth_mode = codes "azure_token_verifier";
  azure_group_authorization_enabled = true;
  azure_write_groups = codes "DBA" ∷ [];
}

abbrev pub server : State ℕ
server = record {
  auth = some auth;
  session_manager = Sessions.init (pos 480) (pos 30) (pos 2);
  rate_limiter = RateLimit.init (pos 2) (pos 0) (pos 10) (pos 0);
  write_guard = record {
    policy = record default_policy {
      allowed_write_tools = exec_tool ∷ [];
      allowed_tools = (exec_tool, (codes "allowed_procedures", codes "dbo.usp_Run" ∷ []) ∷ []) ∷ [];
    };
    blocked = [];
  };
  max_result_rows = pos 5000;
  denied_requests = 0;
  audit_log = [];
  database = 0;
}

abbrev request : Text → Text → Request
request tool group = record {
  request_id = codes "r1";
  tool = tool;
  instance_id = codes "primary";
  actor = codes "unknown";
  database_name = [];
  mcp_session_id = none;
  token = some (record {
    preferred_username = text (codes "ann");
    oid = missing;
    sub = missing;
    upn = missing;
    groups = (codes "groups", items (group ∷ [])) ∷ [];
  });
  touch_time = 1000000;
  cleanup_time = 1000000;
  allow_time = 1000000;
}

abbrev pub select_call : Request
select_call = request (codes "db_01_select") (codes "dba ")

abbrev exec_call : Request
exec_call = request exec_tool (codes "dba ")

calls-Logged_example :
    Logged backend read_level
      (codes "SELECT 1")
      exec_call
      server
      (run_read_tool backend (codes "SELECT 1") (pos 5) exec_call server)
    × Logged backend read_level
        (codes "SELECT 1")
        exec_call
        server
        (select backend (codes "SELECT 1") exec_call server)
    × Logged backend write_level
        (codes "EXEC " ++ codes "usp_run")
        exec_call
        server
        (exec_proc backend (codes "usp_run") [] exec_call server)
calls-Logged_example =
    calls-Logged backend (codes "SELECT 1") (codes "usp_run") (pos 5) [] exec_call server

select_write-Refused_example :
    Refused backend server
      (select backend ((32 ∷ []) ++ ((codes "Delete") ++ codes " FROM t")) select_call server)
unfolding is_space elem text_eq upper_char
select_write-Refused_example =
    select_write-Refused backend select_call server (space 32 [] refl nothing) b'D' (codes "elete")
      (codes " FROM t") refl refl refl refl

exec_guarded_example :
    (InGroup backend auth auth.azure_write_groups exec_call.token
      × IsListed server.write_guard exec_tool (codes "usp_run")
      × ((text_eq server.write_guard.policy.write_mode_default (codes "deny") ≡ false)
          ⊎ (elem exec_tool server.write_guard.policy.allowed_write_tools ≡ true)))
    ⊎ Refused backend server (exec_proc backend (codes "usp_run") [] exec_call server)
unfolding auth_enforced text_eq
exec_guarded_example =
    exec_guarded backend (codes "usp_run") [] exec_call server auth refl refl refl

-- The procedure runs.
exec_runs : (exec_proc backend (codes "usp_run") [] exec_call server).1.database ≡ 1
unfolding exec_proc lower_char Sessions.init ◌+ℤ◌ RateLimit.init RateLimit.prune any upper_char
exec_runs = refl

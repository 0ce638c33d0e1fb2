-- ===== src/Lib.antt =====
-- The verification library of the MCP server for SQL Server: definitions that follow the Python code
-- of src/, and what is proved of them.
--
-- The program lets clients run named tools against configured SQL Server instances. A call of a tool
-- goes through a fixed series of gates: it is authorised from the groups of its token
-- (security/privilege_mapper.py), its session is touched (security/session_manager.py), the rate
-- limits are applied (middleware/rate_limiter.py), the write guard reads its statement or procedure
-- name (middleware/write_guard.py), and only then does the connection manager
-- (db/connection_manager.py) take a connection from the pool of the instance. However it ends, it is
-- logged (middleware/audit_logger.py) and counted. tools/sql_tools.py puts the gates together.
--
-- Files, and the code that they follow:
--   Common.antt, Common/    shared: tests on numbers, lists, signed integers, text as code points,
--                           dictionaries as association lists, exceptions as values (`Outcome`)
--   Models.antt             src/models.py, the configuration records
--   Config.antt, Config/    src/config_loader.py: the overrides by environment variables
--   Security/Sessions.antt  src/security/session_manager.py: `SessionManager`, its `_cleanup`
--                           (`cleanup`), `touch` and `active_count`
--   Security/Privilege.antt src/security/privilege_mapper.py: `resolve_group_privilege`
--   Security/Tokens.antt    src/security/auth_provider.py: `AzureEntraTokenVerifier.verify_token` and
--                           its caches; Security/Provider.antt: `build_auth_provider`
--   Middleware/RateLimit.antt   src/middleware/rate_limiter.py: `SlidingWindowRateLimiter`
--   Middleware/Redis.antt   the same file: `RedisSlidingWindowRateLimiter`, its script, and
--                           `build_rate_limiter`; Redis/Sets has what the server is documented to do
--   Middleware/WriteGuard.antt  src/middleware/write_guard.py: `WriteGuard`
--   Db/Pool.antt            src/db/connection_manager.py: the locked blocks of the pool; Pool/Threads
--                           has them as the steps of threads, Pool/Sequential as a program
--   Db/Columns.antt         src/db/connection_manager.py: `_normalize_column_names`
--   Db/Reads.antt           the same file: `_is_transient_read_error`, `_run_read_operation`
--   Db/Queries.antt         the same file: what its operations do on a connection and its cursor
--   Db/Manager.antt         the same file: the operations by the name of an instance;
--                           Manager/Checks: the health checks, `get_pool_diagnostics`,
--                           `close_all_pools`
--   Diagnostics/Usage.antt  src/diagnostics/usage_summary.py
--   Tools/Flags.antt        src/tools/tool_flags.py, src/tools/tool_registry.py, and the names that
--                           `register_sql_tools` of src/tools/sql_tools.py returns
--   Tools/Inputs.antt       src/tools/input_validation.py and src/tools/security_redaction.py
--   Tools/Pages.antt        src/tools/dashboard_page_store.py
--   Tools/Graph.antt        src/tools/model_graph.py: `build_fk_graph`
--   Tools/Authorize.antt, Tools/Gate.antt   src/tools/sql_tools.py: `_resolve_actor_and_authorize`,
--                           `_run_read_tool`, `_select`, `_exec_proc`
--   Tools/Stack.antt        the tools on the connection manager
--   Tools/Catalogue.antt    src/tools/query_catalog.py: every query, as a function of its parameters
--   Tools/Reports.antt      src/tools/analysis_contracts.py
--   Tools/Statements.antt   src/tools/sql_tools.py: the rows of `top_statements`, with Values and
--                           Advice (`_recommend_top_statement_actions`) and Collect
--                           (`_collect_top_statement_metrics` and the report)
--   Tools/Instance.antt     the same file: `_ping`, `_list_tools`, `_list_object`, `_execute_query`,
--                           `_top_statements` and `_extract_sql_error`
--   Tests.antt, Tests/      the theorems at concrete inputs
--
-- How the code is read. A method that changes its object takes the state and gives the new one; an
-- exception is a value, and a call that raises still gives the state that it leaves. Clocks are
-- arguments, in microseconds: each reading of the clock is its own argument. Integers that a
-- configuration may make negative are signed. A text is the list of its code points; lower and upper
-- case and digits are those of ASCII, white space that of Unicode. A regular expression of the
-- source is a function that recognises it; one that the configuration supplies is a parameter.
-- The pool is modelled for one instance; Db/Manager has all of them, each with its own. Its locked
-- blocks are atomic steps and all else interleaves. The loop of `_acquire_connection` runs on fuel, one more
-- than there are available connections: each round but the last takes one away, and the loop is
-- proved to end within it. The loop that makes a column name unique has one round more than there
-- are names before it, and one for its first test, which is proved enough. The search for
-- cycles goes as deep as there are nodes, which is proved enough too, and so is the fuel of a number
-- that is written in groups of digits.
--
-- Floating-point numbers are a parameter. The text of a query is written as the source puts it
-- together; what it means is the database's.
--
-- Not modelled: the database and its driver (parameters), the other reports that arrange fetched
-- rows, what the caller's context is told while a tool runs, HTML, metrics and log lines, the web
-- framework and the start of the server.
pub mod Common
pub mod Models
pub mod Config
pub mod Security
pub mod Middleware
pub mod Db
pub mod Tools
pub mod Diagnostics
pub mod Tests

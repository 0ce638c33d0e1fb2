-- ===== src/Tools/Catalogue/Locks.antt =====
-- tools/query_catalog.py: the queries about sessions, locks and waits.
use mcp_sql_server.Tools.Catalogue.{validate_top_n}
use mcp_sql_server.Db.Reads.{rendered}
use mcp_sql_server.Common.{Outcome, Text, [], int, lit, ok, ℤ, ◌>>=◌, ◌∷◌}

unfoldable pub active_sessions_query : ℤ → Outcome Text
unfolding rendered validate_top_n
active_sessions_query top_n = do
  top_n ← validate_top_n top_n
  ok (
      rendered (
        lit "SELECT TOP "
        ∷ int top_n
        ∷ lit " s.session_id, s.login_name, s.host_name, s.program_name, s.status, "
        ∷ lit "DB_NAME(s.database_id) AS session_database_name, "
        ∷ lit "s.open_transaction_count, s.login_time, s.last_request_start_time, "
        ∷ lit "r.command, r.wait_type, r.wait_time, r.cpu_time, r.blocking_session_id, "
        ∷ lit "r.start_time, "
        ∷ lit "SUBSTRING(st.text, 1, 500) AS sql_command "
        ∷ lit "FROM sys.dm_exec_sessions s "
        ∷ lit "LEFT JOIN sys.dm_exec_requests r ON s.session_id = r.session_id "
        ∷ lit "OUTER APPLY sys.dm_exec_sql_text(r.sql_handle) st "
        ∷ lit "WHERE s.is_user_process = 1 "
        ∷ lit "ORDER BY r.wait_time DESC, s.session_id "
        ∷ lit "OPTION (RECOMPILE)"
        ∷ []))

unfoldable pub lock_chain_query : ℤ → Outcome Text
unfolding rendered validate_top_n
lock_chain_query top_n = do
  top_n ← validate_top_n top_n
  ok (
      rendered (
        lit "SELECT TOP "
        ∷ int top_n
        ∷ lit " wt.session_id, wt.blocking_session_id, wt.wait_type, wt.wait_duration_ms, "
        ∷ lit "wt.resource_description "
        ∷ lit "FROM sys.dm_os_waiting_tasks wt "
        ∷ lit "WHERE wt.blocking_session_id IS NOT NULL "
        ∷ lit "ORDER BY wt.wait_duration_ms DESC "
        ∷ lit "OPTION (RECOMPILE)"
        ∷ []))

unfoldable pub blocking_chain_query : ℤ → Outcome Text
unfolding rendered validate_top_n
blocking_chain_query top_n = do
  top_n ← validate_top_n top_n
  ok (
      rendered (
        lit "SELECT TOP "
        ∷ int top_n
        ∷ lit " "
        ∷ lit "r.session_id, "
        ∷ lit "r.blocking_session_id, "
        ∷ lit "r.wait_type, "
        ∷ lit "r.wait_time, "
        ∷ lit "s.status, "
        ∷ lit "s.login_name, "
        ∷ lit "s.host_name, "
        ∷ lit "r.command "
        ∷ lit "FROM sys.dm_exec_requests r "
        ∷ lit "JOIN sys.dm_exec_sessions s ON r.session_id = s.session_id "
        ∷ lit "WHERE r.blocking_session_id > 0 "
        ∷ lit "ORDER BY r.blocking_session_id, r.wait_time DESC "
        ∷ lit "OPTION (RECOMPILE)"
        ∷ []))

unfoldable pub tran_locks_query : ℤ → Outcome Text
unfolding rendered validate_top_n
tran_locks_query top_n = do
  top_n ← validate_top_n top_n
  ok (
      rendered (
        lit "SELECT TOP "
        ∷ int top_n
        ∷ lit " "
        ∷ lit "tl.request_session_id AS session_id, "
        ∷ lit "tl.resource_type, "
        ∷ lit "tl.resource_database_id, "
        ∷ lit "tl.resource_associated_entity_id, "
        ∷ lit "tl.request_mode, "
        ∷ lit "tl.request_status, "
        ∷ lit "tl.request_owner_type "
        ∷ lit "FROM sys.dm_tran_locks tl "
        ∷ lit "WHERE tl.request_status IN ('GRANT', 'WAIT') "
        ∷ lit "ORDER BY tl.request_status DESC, tl.request_session_id"
        ∷ []))

unfoldable pub waiting_tasks_query : ℤ → Outcome Text
unfolding rendered validate_top_n
waiting_tasks_query top_n = do
  top_n ← validate_top_n top_n
  ok (
      rendered (
        lit "SELECT TOP "
        ∷ int top_n
        ∷ lit " "
        ∷ lit "wt.session_id, "
        ∷ lit "wt.blocking_session_id, "
        ∷ lit "wt.wait_type, "
        ∷ lit "wt.wait_duration_ms, "
        ∷ lit "wt.resource_description "
        ∷ lit "FROM sys.dm_os_waiting_tasks wt "
        ∷ lit "ORDER BY wt.wait_duration_ms DESC "
        ∷ lit "OPTION (RECOMPILE)"
        ∷ []))

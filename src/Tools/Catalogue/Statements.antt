-- ===== src/Tools/Catalogue/Statements.antt =====
-- tools/query_catalog.py: the queries about the statements that ran longest.
use mcp_sql_server.Tools.Catalogue.{validate_lookback_minutes, validate_top_n}
use mcp_sql_server.Db.Reads.{rendered}
use mcp_sql_server.Common.{Outcome, Text, [], int, lit, ok, ℤ, ◌>>=◌, ◌∷◌}

unfoldable pub top_statements_query_store_query : ℤ → ℤ → Outcome Text
unfolding rendered validate_top_n validate_lookback_minutes
top_statements_query_store_query top_n lookback_minutes = do
  top_n ← validate_top_n top_n
  lookback_minutes ← validate_lookback_minutes lookback_minutes
  ok (
      rendered (
        lit "SELECT TOP "
        ∷ int top_n
        ∷ lit " "
        ∷ lit "qsq.query_id, "
        ∷ lit "CAST(SUM(rs.avg_duration * rs.count_executions) "
        ∷ lit "  / NULLIF(SUM(rs.count_executions), 0) AS BIGINT) AS "
        ∷ lit "weighted_avg_duration_us, "
        ∷ lit "CAST(MAX(rs.max_duration) AS BIGINT) AS max_duration_us, "
        ∷ lit "SUM(rs.count_executions) AS execution_count, "
        ∷ lit "CAST(SUM(rs.avg_cpu_time * rs.count_executions) "
        ∷ lit "  / NULLIF(SUM(rs.count_executions), 0) AS FLOAT) AS "
        ∷ lit "weighted_avg_cpu_time_us, "
        ∷ lit "CAST(SUM(rs.avg_logical_io_reads * rs.count_executions) "
        ∷ lit "  / NULLIF(SUM(rs.count_executions), 0) AS FLOAT) AS "
        ∷ lit "weighted_avg_logical_reads, "
        ∷ lit "CAST(SUM(rs.avg_physical_io_reads * rs.count_executions) "
        ∷ lit "  / NULLIF(SUM(rs.count_executions), 0) AS FLOAT) AS "
        ∷ lit "weighted_avg_physical_reads, "
        ∷ lit "CAST(SUM(rs.avg_log_bytes_used * rs.count_executions) "
        ∷ lit "  / NULLIF(SUM(rs.count_executions), 0) AS FLOAT) AS weighted_avg_log_bytes, "
        ∷ lit "MAX(rsi.end_time) AS last_exec_time, "
        ∷ lit "LEFT(TRIM(qt.query_sql_text), 4000) AS query_sql_text, "
        ∷ lit "qsq.object_id AS containing_object_id, "
        ∷ lit "OBJECT_SCHEMA_NAME(qsq.object_id) AS containing_schema, "
        ∷ lit "OBJECT_NAME(qsq.object_id) AS containing_object "
        ∷ lit "FROM sys.query_store_query qsq "
        ∷ lit "JOIN sys.query_store_query_text qt "
        ∷ lit "  ON qsq.query_text_id = qt.query_text_id "
        ∷ lit "JOIN sys.query_store_plan qsp "
        ∷ lit "  ON qsq.query_id = qsp.query_id "
        ∷ lit "JOIN sys.query_store_runtime_stats rs "
        ∷ lit "  ON qsp.plan_id = rs.plan_id "
        ∷ lit "JOIN sys.query_store_runtime_stats_interval rsi "
        ∷ lit "  ON rs.runtime_stats_interval_id = rsi.runtime_stats_interval_id "
        ∷ lit "WHERE rsi.start_time >= DATEADD(minute, -{lookback_minutes}, "
        ∷ lit "SYSUTCDATETIME()) "
        ∷ lit "GROUP BY qsq.query_id, qt.query_sql_text, qsq.object_id "
        ∷ lit "ORDER BY weighted_avg_duration_us DESC "
        ∷ lit "OPTION (RECOMPILE)"
        ∷ []))

unfoldable pub top_statements_dmv_fallback_query : ℤ → Outcome Text
unfolding rendered validate_top_n
top_statements_dmv_fallback_query top_n = do
  top_n ← validate_top_n top_n
  ok (
      rendered (
        lit "SELECT TOP "
        ∷ int top_n
        ∷ lit " "
        ∷ lit "NULL AS query_id, "
        ∷ lit "qs.total_elapsed_time / NULLIF(qs.execution_count, 0) AS "
        ∷ lit "weighted_avg_duration_us, "
        ∷ lit "qs.max_elapsed_time AS max_duration_us, "
        ∷ lit "qs.execution_count, "
        ∷ lit "qs.total_worker_time / NULLIF(qs.execution_count, 0) AS "
        ∷ lit "weighted_avg_cpu_time_us, "
        ∷ lit "qs.total_logical_reads / NULLIF(qs.execution_count, 0) AS "
        ∷ lit "weighted_avg_logical_reads, "
        ∷ lit "qs.total_physical_reads / NULLIF(qs.execution_count, 0) AS "
        ∷ lit "weighted_avg_physical_reads, "
        ∷ lit "0 AS weighted_avg_log_bytes, "
        ∷ lit "qs.last_execution_time AS last_exec_time, "
        ∷ lit "LEFT(TRIM(TRY_CAST(st.text AS nvarchar(max))), 4000) AS query_sql_text, "
        ∷ lit "NULL AS containing_object_id, "
        ∷ lit "NULL AS containing_schema, "
        ∷ lit "NULL AS containing_object "
        ∷ lit "FROM sys.dm_exec_query_stats qs "
        ∷ lit "CROSS APPLY sys.dm_exec_sql_text(qs.sql_handle) st "
        ∷ lit "WHERE qs.execution_count > 0 "
        ∷ lit "ORDER BY weighted_avg_duration_us DESC "
        ∷ lit "OPTION (RECOMPILE)"
        ∷ []))

unfoldable pub top_statements_object_pressure_query : ℤ → Outcome Text
unfolding rendered validate_top_n
top_statements_object_pressure_query top_n = do
  top_n ← validate_top_n top_n
  ok (
      rendered (
        lit "WITH table_row_counts AS ("
        ∷ lit "  SELECT ps.object_id, SUM(ps.row_count) AS row_count "
        ∷ lit "  FROM sys.dm_db_partition_stats ps "
        ∷ lit "  WHERE ps.index_id IN (0, 1) "
        ∷ lit "  GROUP BY ps.object_id"
        ∷ lit "), table_usage AS ("
        ∷ lit "  SELECT ius.object_id, "
        ∷ lit "         SUM(ius.user_seeks) AS user_seeks, "
        ∷ lit "         SUM(ius.user_scans) AS user_scans, "
        ∷ lit "         SUM(ius.user_lookups) AS user_lookups, "
        ∷ lit "         SUM(ius.user_updates) AS user_updates "
        ∷ lit "  FROM sys.dm_db_index_usage_stats ius "
        ∷ lit "  WHERE ius.database_id = DB_ID() AND ius.index_id IN (0, 1) "
        ∷ lit "  GROUP BY ius.object_id"
        ∷ lit ") "
        ∷ lit "SELECT TOP "
        ∷ int top_n
        ∷ lit " "
        ∷ lit "OBJECT_SCHEMA_NAME(tr.object_id) AS schema_name, "
        ∷ lit "OBJECT_NAME(tr.object_id) AS table_name, "
        ∷ lit "ISNULL(tu.user_seeks, 0) AS user_seeks, "
        ∷ lit "ISNULL(tu.user_scans, 0) AS user_scans, "
        ∷ lit "ISNULL(tu.user_lookups, 0) AS user_lookups, "
        ∷ lit "ISNULL(tu.user_updates, 0) AS user_updates, "
        ∷ lit "tr.row_count, "
        ∷ lit "CAST(ISNULL(tu.user_scans, 0) AS FLOAT) "
        ∷ lit "  / NULLIF(ISNULL(tu.user_seeks, 0) + ISNULL(tu.user_scans, 0), 0) AS "
        ∷ lit "scan_ratio "
        ∷ lit "FROM table_row_counts tr "
        ∷ lit "LEFT JOIN table_usage tu ON tu.object_id = tr.object_id "
        ∷ lit "WHERE OBJECTPROPERTY(tr.object_id, 'IsUserTable') = 1 "
        ∷ lit "  AND tr.row_count > 0 "
        ∷ lit "ORDER BY scan_ratio DESC, tr.row_count DESC "
        ∷ lit "OPTION (RECOMPILE)"
        ∷ []))

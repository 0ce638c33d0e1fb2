-- ===== src/Tools/Catalogue/Statistics.antt =====
-- tools/query_catalog.py: the queries about the statistics of tables.
use mcp_sql_server.Tools.Catalogue.{escaped, validate_top_n}
use mcp_sql_server.Db.Reads.{rendered}
use mcp_sql_server.Common.{Outcome, Text, [], int, lit, ok, str, ℤ, ◌*ℤ◌, ◌>>=◌, ◌∷◌}

unfoldable pub stale_statistics_query : ℤ → Outcome Text
unfolding rendered validate_top_n
stale_statistics_query top_n = do
  top_n ← validate_top_n top_n
  ok (
      rendered (
        lit "WITH top_tables AS ("
        ∷ lit "SELECT TOP "
        ∷ int (top_n *ℤ 4)
        ∷ lit " t.object_id "
        ∷ lit "FROM sys.tables t "
        ∷ lit "JOIN sys.dm_db_partition_stats p ON t.object_id = p.object_id AND p.index_id "
        ∷ lit "IN (0,1) "
        ∷ lit "GROUP BY t.object_id ORDER BY SUM(p.row_count) DESC"
        ∷ lit ") "
        ∷ lit "SELECT TOP "
        ∷ int top_n
        ∷ lit " "
        ∷ lit "OBJECT_SCHEMA_NAME(s.object_id) AS schema_name, "
        ∷ lit "OBJECT_NAME(s.object_id) AS table_name, "
        ∷ lit "s.name AS stat_name, "
        ∷ lit "sp.last_updated, "
        ∷ lit "sp.rows, "
        ∷ lit "sp.rows_sampled, "
        ∷ lit "sp.modification_counter "
        ∷ lit "FROM sys.stats s "
        ∷ lit "CROSS APPLY sys.dm_db_stats_properties(s.object_id, s.stats_id) sp "
        ∷ lit "WHERE OBJECTPROPERTY(s.object_id, 'IsUserTable') = 1 "
        ∷ lit "AND s.object_id IN (SELECT object_id FROM top_tables) "
        ∷ lit "ORDER BY sp.modification_counter DESC, sp.last_updated ASC "
        ∷ lit "OPTION (MAXDOP 1)"
        ∷ []))

unfoldable pub statistics_never_updated_query : ℤ → Outcome Text
unfolding rendered validate_top_n
statistics_never_updated_query top_n = do
  top_n ← validate_top_n top_n
  ok (
      rendered (
        lit "WITH top_tables AS ("
        ∷ lit "SELECT TOP "
        ∷ int (top_n *ℤ 4)
        ∷ lit " t.object_id "
        ∷ lit "FROM sys.tables t "
        ∷ lit "JOIN sys.dm_db_partition_stats p ON t.object_id = p.object_id AND p.index_id "
        ∷ lit "IN (0,1) "
        ∷ lit "GROUP BY t.object_id ORDER BY SUM(p.row_count) DESC"
        ∷ lit ") "
        ∷ lit "SELECT TOP "
        ∷ int top_n
        ∷ lit " "
        ∷ lit "OBJECT_SCHEMA_NAME(s.object_id) AS schema_name, "
        ∷ lit "OBJECT_NAME(s.object_id) AS table_name, "
        ∷ lit "s.name AS stat_name, "
        ∷ lit "sp.last_updated, "
        ∷ lit "sp.rows, "
        ∷ lit "sp.rows_sampled, "
        ∷ lit "sp.modification_counter "
        ∷ lit "FROM sys.stats s "
        ∷ lit "CROSS APPLY sys.dm_db_stats_properties(s.object_id, s.stats_id) sp "
        ∷ lit "WHERE OBJECTPROPERTY(s.object_id, 'IsUserTable') = 1 "
        ∷ lit "AND sp.last_updated IS NULL "
        ∷ lit "AND s.object_id IN (SELECT object_id FROM top_tables) "
        ∷ lit "ORDER BY sp.rows DESC, sp.modification_counter DESC"
        ∷ []))

unfoldable pub low_sampled_statistics_query : ℤ → Outcome Text
unfolding rendered validate_top_n
low_sampled_statistics_query top_n = do
  top_n ← validate_top_n top_n
  ok (
      rendered (
        lit "WITH top_tables AS ("
        ∷ lit "SELECT TOP "
        ∷ int (top_n *ℤ 4)
        ∷ lit " t.object_id "
        ∷ lit "FROM sys.tables t "
        ∷ lit "JOIN sys.dm_db_partition_stats p ON t.object_id = p.object_id AND p.index_id "
        ∷ lit "IN (0,1) "
        ∷ lit "GROUP BY t.object_id ORDER BY SUM(p.row_count) DESC"
        ∷ lit ") "
        ∷ lit "SELECT TOP "
        ∷ int top_n
        ∷ lit " "
        ∷ lit "OBJECT_SCHEMA_NAME(s.object_id) AS schema_name, "
        ∷ lit "OBJECT_NAME(s.object_id) AS table_name, "
        ∷ lit "s.name AS stat_name, "
        ∷ lit "sp.last_updated, "
        ∷ lit "sp.rows, "
        ∷ lit "sp.rows_sampled, "
        ∷ lit "sp.modification_counter, "
        ∷ lit "CASE WHEN sp.rows > 0 "
        ∷ lit "THEN CAST(sp.rows_sampled AS FLOAT) / CAST(sp.rows AS FLOAT) "
        ∷ lit "ELSE 0 END AS sample_ratio "
        ∷ lit "FROM sys.stats s "
        ∷ lit "CROSS APPLY sys.dm_db_stats_properties(s.object_id, s.stats_id) sp "
        ∷ lit "WHERE OBJECTPROPERTY(s.object_id, 'IsUserTable') = 1 "
        ∷ lit "AND sp.rows > 0 "
        ∷ lit "AND s.object_id IN (SELECT object_id FROM top_tables) "
        ∷ lit "ORDER BY sample_ratio ASC, sp.rows DESC"
        ∷ []))

unfoldable pub database_statistics_settings_query : Outcome Text
unfolding rendered
database_statistics_settings_query = ok (
    rendered (
      lit "SELECT "
      ∷ lit "name AS database_name, "
      ∷ lit "is_auto_create_stats_on AS auto_create_statistics_on, "
      ∷ lit "is_auto_update_stats_on AS auto_update_statistics_on, "
      ∷ lit "is_auto_update_stats_async_on AS auto_update_statistics_async_on "
      ∷ lit "FROM sys.databases "
      ∷ lit "WHERE name = DB_NAME()"
      ∷ []))

unfoldable pub missing_statistics_coverage_candidate_query : ℤ → Outcome Text
unfolding rendered validate_top_n
missing_statistics_coverage_candidate_query top_n = do
  top_n ← validate_top_n top_n
  ok (
      rendered (
        lit "WITH top_tables AS ("
        ∷ lit "SELECT TOP "
        ∷ int (top_n *ℤ 4)
        ∷ lit " t.object_id, SUM(p.row_count) AS row_count "
        ∷ lit "FROM sys.tables t "
        ∷ lit "JOIN sys.dm_db_partition_stats p ON t.object_id = p.object_id AND p.index_id "
        ∷ lit "IN (0,1) "
        ∷ lit "GROUP BY t.object_id ORDER BY SUM(p.row_count) DESC"
        ∷ lit "), table_stats AS ("
        ∷ lit "SELECT st.object_id, COUNT(*) AS usable_stats_count "
        ∷ lit "FROM sys.stats st "
        ∷ lit "WHERE st.stats_id > 0 "
        ∷ lit "GROUP BY st.object_id"
        ∷ lit ") "
        ∷ lit "SELECT TOP "
        ∷ int top_n
        ∷ lit " "
        ∷ lit "s.name AS schema_name, "
        ∷ lit "t.name AS table_name, "
        ∷ lit "ISNULL(ts.usable_stats_count, 0) AS usable_stats_count, "
        ∷ lit "ISNULL(tt.row_count, 0) AS row_count "
        ∷ lit "FROM top_tables tt "
        ∷ lit "JOIN sys.tables t ON t.object_id = tt.object_id "
        ∷ lit "JOIN sys.schemas s ON s.schema_id = t.schema_id "
        ∷ lit "LEFT JOIN table_stats ts ON ts.object_id = t.object_id "
        ∷ lit "WHERE ISNULL(ts.usable_stats_count, 0) = 0 "
        ∷ lit "ORDER BY row_count DESC, s.name, t.name"
        ∷ []))

unfoldable pub statistics_histogram_query : Text → Text → Text → Text
unfolding rendered escaped
statistics_histogram_query schema_name table_name stat_name = rendered (
    lit "SELECT "
    ∷ lit "h.step_number, "
    ∷ lit "TRY_CAST(h.range_high_key AS nvarchar(256)) AS range_high_key_text, "
    ∷ lit "h.range_rows, "
    ∷ lit "h.equal_rows, "
    ∷ lit "h.distinct_range_rows, "
    ∷ lit "h.average_range_rows "
    ∷ lit "FROM sys.stats st "
    ∷ lit "CROSS APPLY sys.dm_db_stats_histogram(st.object_id, st.stats_id) h "
    ∷ lit "WHERE st.object_id = OBJECT_ID('"
    ∷ str (escaped schema_name)
    ∷ lit "."
    ∷ str (escaped table_name)
    ∷ lit "') "
    ∷ lit "AND st.name = '"
    ∷ str (escaped stat_name)
    ∷ lit "' "
    ∷ lit "ORDER BY h.step_number"
    ∷ [])

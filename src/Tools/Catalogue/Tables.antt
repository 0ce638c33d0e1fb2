-- ===== src/Tools/Catalogue/Tables.antt =====
-- tools/query_catalog.py: the queries about tables, their keys and their storage.
use mcp_sql_server.Tools.Catalogue.{validate_top_n}
use mcp_sql_server.Db.Reads.{rendered}
use mcp_sql_server.Common.{Outcome, Text, [], int, lit, ok, ℤ, ◌*ℤ◌, ◌>>=◌, ◌∷◌}

unfoldable pub table_size_query : ℤ → Outcome Text
unfolding rendered validate_top_n
table_size_query top_n = do
  top_n ← validate_top_n top_n
  ok (
      rendered (
        lit "SELECT TOP "
        ∷ int top_n
        ∷ lit " s.name AS schema_name, t.name AS table_name, "
        ∷ lit "SUM(ps.row_count) AS row_count, "
        ∷ lit "CAST(SUM(ps.used_page_count) * 8.0 / 1024 AS DECIMAL(18,2)) AS total_space_mb "
        ∷ lit "FROM sys.tables t "
        ∷ lit "JOIN sys.schemas s ON t.schema_id = s.schema_id "
        ∷ lit "JOIN sys.dm_db_partition_stats ps ON t.object_id = ps.object_id AND "
        ∷ lit "ps.index_id IN (0,1) "
        ∷ lit "WHERE t.is_ms_shipped = 0 "
        ∷ lit "GROUP BY s.name, t.name "
        ∷ lit "ORDER BY total_space_mb DESC "
        ∷ lit "OPTION (MAXDOP 1)"
        ∷ []))

unfoldable pub fragmented_indexes_query : ℤ → Outcome Text
unfolding rendered validate_top_n
fragmented_indexes_query top_n = do
  top_n ← validate_top_n top_n
  ok (
      rendered (
        lit "WITH candidate_tables AS ("
        ∷ lit "SELECT TOP "
        ∷ int (top_n *ℤ 4)
        ∷ lit " t.object_id "
        ∷ lit "FROM sys.tables t "
        ∷ lit "JOIN sys.dm_db_partition_stats p ON t.object_id = p.object_id AND p.index_id "
        ∷ lit "IN (0,1) "
        ∷ lit "GROUP BY t.object_id "
        ∷ lit "ORDER BY SUM(p.row_count) DESC"
        ∷ lit ") "
        ∷ lit "SELECT TOP "
        ∷ int top_n
        ∷ lit " OBJECT_SCHEMA_NAME(ps.object_id) AS schema_name, "
        ∷ lit "OBJECT_NAME(ps.object_id) AS table_name, i.name AS index_name, "
        ∷ lit "ps.avg_fragmentation_in_percent, ps.page_count "
        ∷ lit "FROM candidate_tables ct "
        ∷ lit "CROSS APPLY sys.dm_db_index_physical_stats(DB_ID(), ct.object_id, NULL, NULL, "
        ∷ lit "'LIMITED') ps "
        ∷ lit "JOIN sys.indexes i ON ps.object_id = i.object_id AND ps.index_id = i.index_id "
        ∷ lit "WHERE ps.index_id > 0 AND ps.index_level = 0 AND ps.page_count >= 100 "
        ∷ lit "AND OBJECTPROPERTY(ps.object_id, 'IsUserTable') = 1 "
        ∷ lit "ORDER BY ps.avg_fragmentation_in_percent DESC, ps.page_count DESC "
        ∷ lit "OPTION (MAXDOP 1)"
        ∷ []))

unfoldable pub missing_pk_query : Outcome Text
unfolding rendered
missing_pk_query = ok (
    rendered (
      lit "SELECT s.name AS schema_name, t.name AS table_name "
      ∷ lit "FROM sys.tables t "
      ∷ lit "INNER JOIN sys.schemas s ON s.schema_id = t.schema_id "
      ∷ lit "WHERE NOT EXISTS ( SELECT 1 FROM sys.key_constraints k WHERE "
      ∷ lit "k.parent_object_id = t.object_id "
      ∷ lit "AND k.type = 'PK' ) "
      ∷ lit "ORDER BY s.name, t.name"
      ∷ []))

unfoldable pub fk_graph_query : Outcome Text
unfolding rendered
fk_graph_query = ok (
    rendered (
      lit "SELECT fk.name AS fk_name, "
      ∷ lit "OBJECT_SCHEMA_NAME(fk.parent_object_id) AS parent_schema, "
      ∷ lit "OBJECT_NAME(fk.parent_object_id) AS parent_table, "
      ∷ lit "OBJECT_SCHEMA_NAME(fk.referenced_object_id) AS referenced_schema, "
      ∷ lit "OBJECT_NAME(fk.referenced_object_id) AS referenced_table "
      ∷ lit "FROM sys.foreign_keys fk "
      ∷ lit "WHERE OBJECTPROPERTY(fk.parent_object_id, 'IsUserTable') = 1"
      ∷ []))

unfoldable pub heap_tables_query : Outcome Text
unfolding rendered
heap_tables_query = ok (
    rendered (
      lit "SELECT s.name AS schema_name, t.name AS table_name, "
      ∷ lit "SUM(ps.row_count) AS row_count "
      ∷ lit "FROM sys.tables t "
      ∷ lit "JOIN sys.schemas s ON s.schema_id = t.schema_id "
      ∷ lit "JOIN sys.dm_db_partition_stats ps ON t.object_id = ps.object_id AND "
      ∷ lit "ps.index_id = 0 "
      ∷ lit "WHERE ps.row_count > 0 "
      ∷ lit "GROUP BY s.name, t.name "
      ∷ lit "ORDER BY SUM(ps.row_count) DESC "
      ∷ lit "OPTION (MAXDOP 1)"
      ∷ []))

unfoldable pub disabled_indexes_query : Outcome Text
unfolding rendered
disabled_indexes_query = ok (
    rendered (
      lit "SELECT OBJECT_SCHEMA_NAME(i.object_id) AS schema_name, "
      ∷ lit "OBJECT_NAME(i.object_id) AS table_name, "
      ∷ lit "i.name AS index_name, i.type_desc "
      ∷ lit "FROM sys.indexes i "
      ∷ lit "WHERE i.is_disabled = 1 AND i.index_id > 0 "
      ∷ lit "ORDER BY schema_name, table_name, index_name"
      ∷ []))

unfoldable pub tables_without_fk_query : Outcome Text
unfolding rendered
tables_without_fk_query = ok (
    rendered (
      lit "SELECT s.name AS schema_name, t.name AS table_name "
      ∷ lit "FROM sys.tables t "
      ∷ lit "JOIN sys.schemas s ON s.schema_id = t.schema_id "
      ∷ lit "WHERE NOT EXISTS ("
      ∷ lit "  SELECT 1 FROM sys.foreign_keys fk "
      ∷ lit "  WHERE fk.parent_object_id = t.object_id OR fk.referenced_object_id = "
      ∷ lit "t.object_id"
      ∷ lit ") "
      ∷ lit "ORDER BY s.name, t.name"
      ∷ []))

unfoldable pub nullable_fk_columns_query : Outcome Text
unfolding rendered
nullable_fk_columns_query = ok (
    rendered (
      lit "SELECT "
      ∷ lit "OBJECT_SCHEMA_NAME(fkc.parent_object_id) AS parent_schema, "
      ∷ lit "OBJECT_NAME(fkc.parent_object_id) AS parent_table, "
      ∷ lit "COL_NAME(fkc.parent_object_id, fkc.parent_column_id) AS fk_column, "
      ∷ lit "fk.name AS fk_constraint_name "
      ∷ lit "FROM sys.foreign_key_columns fkc "
      ∷ lit "JOIN sys.foreign_keys fk ON fk.object_id = fkc.constraint_object_id "
      ∷ lit "JOIN sys.columns c ON c.object_id = fkc.parent_object_id AND c.column_id = "
      ∷ lit "fkc.parent_column_id "
      ∷ lit "WHERE c.is_nullable = 1 "
      ∷ lit "ORDER BY parent_schema, parent_table"
      ∷ []))

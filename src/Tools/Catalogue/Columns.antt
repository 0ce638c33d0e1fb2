-- ===== src/Tools/Catalogue/Columns.antt =====
-- tools/query_catalog.py: the queries about the columns of tables.
use mcp_sql_server.Tools.Catalogue.{validate_top_n}
use mcp_sql_server.Db.Reads.{rendered}
use mcp_sql_server.Common.{Outcome, Text, [], int, lit, ok, ℤ, ◌>>=◌, ◌∷◌}

unfoldable pub datatype_inconsistency_query : ℤ → Outcome Text
unfolding rendered validate_top_n
datatype_inconsistency_query top_n = do
  top_n ← validate_top_n top_n
  ok (
      rendered (
        lit "SELECT TOP "
        ∷ int top_n
        ∷ lit " "
        ∷ lit "fk.name AS fk_name, "
        ∷ lit "OBJECT_SCHEMA_NAME(fkc.parent_object_id) AS child_schema, "
        ∷ lit "OBJECT_NAME(fkc.parent_object_id) AS child_table, "
        ∷ lit "c_child.name AS child_column, "
        ∷ lit "tp_child.name AS child_type, "
        ∷ lit "c_child.max_length AS child_max_length, "
        ∷ lit "c_child.precision AS child_precision, "
        ∷ lit "OBJECT_SCHEMA_NAME(fkc.referenced_object_id) AS parent_schema, "
        ∷ lit "OBJECT_NAME(fkc.referenced_object_id) AS parent_table, "
        ∷ lit "c_parent.name AS parent_column, "
        ∷ lit "tp_parent.name AS parent_type, "
        ∷ lit "c_parent.max_length AS parent_max_length, "
        ∷ lit "c_parent.precision AS parent_precision "
        ∷ lit "FROM sys.foreign_key_columns fkc "
        ∷ lit "JOIN sys.foreign_keys fk ON fk.object_id = fkc.constraint_object_id "
        ∷ lit "JOIN sys.columns c_child "
        ∷ lit "  ON c_child.object_id = fkc.parent_object_id AND c_child.column_id = "
        ∷ lit "fkc.parent_column_id "
        ∷ lit "JOIN sys.types tp_child ON tp_child.user_type_id = c_child.user_type_id "
        ∷ lit "JOIN sys.columns c_parent "
        ∷ lit "  ON c_parent.object_id = fkc.referenced_object_id AND c_parent.column_id = "
        ∷ lit "fkc.referenced_column_id "
        ∷ lit "JOIN sys.types tp_parent ON tp_parent.user_type_id = c_parent.user_type_id "
        ∷ lit "WHERE tp_child.name != tp_parent.name "
        ∷ lit "   OR ("
        ∷ lit "      tp_child.name IN "
        ∷ lit "('char','varchar','nchar','nvarchar','binary','varbinary') "
        ∷ lit "      AND tp_parent.name IN "
        ∷ lit "('char','varchar','nchar','nvarchar','binary','varbinary') "
        ∷ lit "      AND c_child.max_length != c_parent.max_length"
        ∷ lit "   ) "
        ∷ lit "   OR ("
        ∷ lit "      tp_child.name IN ('decimal','numeric') "
        ∷ lit "      AND tp_parent.name IN ('decimal','numeric') "
        ∷ lit "      AND (c_child.precision != c_parent.precision OR c_child.scale != "
        ∷ lit "c_parent.scale)"
        ∷ lit "   ) "
        ∷ lit "ORDER BY child_schema, child_table, child_column"
        ∷ []))

unfoldable pub soft_delete_columns_query : Outcome Text
unfolding rendered
soft_delete_columns_query = ok (
    rendered (
      lit "SELECT "
      ∷ lit "s.name AS schema_name, "
      ∷ lit "t.name AS table_name, "
      ∷ lit "c.name AS soft_delete_column, "
      ∷ lit "tp.name AS column_type "
      ∷ lit "FROM sys.columns c "
      ∷ lit "JOIN sys.tables t ON t.object_id = c.object_id "
      ∷ lit "JOIN sys.schemas s ON s.schema_id = t.schema_id "
      ∷ lit "JOIN sys.types tp ON tp.user_type_id = c.user_type_id "
      ∷ lit "WHERE LOWER(c.name) IN ("
      ∷ lit "  N'isdeleted', N'is_deleted', N'deleted', N'deletedflag', N'deleteflag',"
      ∷ lit "  N'deletedat', N'deleted_at', N'isactive', N'is_active', N'activeflag', "
      ∷ lit "N'active_flag',"
      ∷ lit "  N'archived', N'isarchived', N'is_archived'"
      ∷ lit ") "
      ∷ lit "AND NOT EXISTS ("
      ∷ lit "  SELECT 1 FROM sys.tables t2 "
      ∷ lit "  JOIN sys.schemas s2 ON s2.schema_id = t2.schema_id "
      ∷ lit "  WHERE s2.schema_id = s.schema_id "
      ∷ lit "    AND (LOWER(t2.name) LIKE LOWER(t.name) + N'%hist%' "
      ∷ lit "      OR LOWER(t2.name) LIKE LOWER(t.name) + N'%audit%' "
      ∷ lit "      OR LOWER(t2.name) LIKE LOWER(t.name) + N'%log%')"
      ∷ lit ") "
      ∷ lit "ORDER BY s.name, t.name"
      ∷ []))

unfoldable pub update_heavy_tables_query : ℤ → Outcome Text
unfolding rendered validate_top_n
update_heavy_tables_query top_n = do
  top_n ← validate_top_n top_n
  ok (
      rendered (
        lit "WITH index_usage AS ("
        ∷ lit "  SELECT i.object_id, "
        ∷ lit "         SUM(ius.user_seeks + ius.user_scans + ius.user_lookups) AS "
        ∷ lit "total_reads, "
        ∷ lit "         SUM(ius.user_updates) AS total_writes "
        ∷ lit "  FROM sys.indexes i "
        ∷ lit "  JOIN sys.dm_db_index_usage_stats ius "
        ∷ lit "    ON ius.object_id = i.object_id AND ius.index_id = i.index_id AND "
        ∷ lit "ius.database_id = DB_ID() "
        ∷ lit "  WHERE i.index_id = 1 AND OBJECTPROPERTY(i.object_id, 'IsUserTable') = 1 "
        ∷ lit "  GROUP BY i.object_id"
        ∷ lit ") "
        ∷ lit "SELECT TOP "
        ∷ int top_n
        ∷ lit " "
        ∷ lit "OBJECT_SCHEMA_NAME(iu.object_id) AS schema_name, "
        ∷ lit "OBJECT_NAME(iu.object_id) AS table_name, "
        ∷ lit "iu.total_reads, "
        ∷ lit "iu.total_writes, "
        ∷ lit "CAST(iu.total_writes AS FLOAT) / NULLIF(iu.total_reads, 0) AS "
        ∷ lit "write_read_ratio "
        ∷ lit "FROM index_usage iu "
        ∷ lit "WHERE iu.total_writes > 100 "
        ∷ lit "  AND (iu.total_reads = 0 "
        ∷ lit "    OR CAST(iu.total_writes AS FLOAT) / NULLIF(iu.total_reads, 0) > 5) "
        ∷ lit "ORDER BY write_read_ratio DESC, iu.total_writes DESC"
        ∷ []))

unfoldable pub normalization_column_overlap_query : Outcome Text
unfolding rendered
normalization_column_overlap_query = ok (
    rendered (
      lit "SELECT "
      ∷ lit "OBJECT_SCHEMA_NAME(fkc.parent_object_id) AS child_schema, "
      ∷ lit "OBJECT_NAME(fkc.parent_object_id) AS child_table, "
      ∷ lit "OBJECT_SCHEMA_NAME(fkc.referenced_object_id) AS parent_schema, "
      ∷ lit "OBJECT_NAME(fkc.referenced_object_id) AS parent_table, "
      ∷ lit "fk.name AS fk_constraint_name, "
      ∷ lit "c_child.name AS overlapping_column "
      ∷ lit "FROM sys.foreign_key_columns fkc "
      ∷ lit "JOIN sys.foreign_keys fk ON fk.object_id = fkc.constraint_object_id "
      ∷ lit "JOIN sys.columns c_child ON c_child.object_id = fkc.parent_object_id "
      ∷ lit "JOIN sys.columns c_parent "
      ∷ lit "  ON c_parent.object_id = fkc.referenced_object_id AND c_parent.name = "
      ∷ lit "c_child.name "
      ∷ lit "WHERE c_child.column_id != fkc.parent_column_id "
      ∷ lit "  AND c_parent.column_id != fkc.referenced_column_id "
      ∷ lit "ORDER BY child_schema, child_table, overlapping_column"
      ∷ []))

-- ===== src/Tools/Catalogue/Indexes.antt =====
-- tools/query_catalog.py: the queries about missing, unused and redundant indexes.
use mcp_sql_server.Tools.Catalogue.{validate_top_n}
use mcp_sql_server.Db.Reads.{rendered}
use mcp_sql_server.Common.{Outcome, Text, [], int, lit, ok, ℤ, ◌>>=◌, ◌∷◌}

unfoldable pub missing_fk_index_query : Outcome Text
unfolding rendered
missing_fk_index_query = ok (
    rendered (
      lit "SELECT "
      ∷ lit "OBJECT_SCHEMA_NAME(fkc.parent_object_id) AS parent_schema, "
      ∷ lit "OBJECT_NAME(fkc.parent_object_id) AS parent_table, "
      ∷ lit "COL_NAME(fkc.parent_object_id, fkc.parent_column_id) AS fk_column, "
      ∷ lit "fk.name AS fk_constraint_name "
      ∷ lit "FROM sys.foreign_key_columns fkc "
      ∷ lit "JOIN sys.foreign_keys fk ON fk.object_id = fkc.constraint_object_id "
      ∷ lit "WHERE NOT EXISTS ("
      ∷ lit "  SELECT 1 FROM sys.index_columns ic "
      ∷ lit "  WHERE ic.object_id = fkc.parent_object_id "
      ∷ lit "    AND ic.column_id = fkc.parent_column_id "
      ∷ lit "    AND ic.key_ordinal = 1"
      ∷ lit ") "
      ∷ lit "ORDER BY parent_schema, parent_table"
      ∷ []))

unfoldable pub missing_index_dmv_query : ℤ → Outcome Text
unfolding rendered validate_top_n
missing_index_dmv_query top_n = do
  top_n ← validate_top_n top_n
  ok (
      rendered (
        lit "SELECT TOP "
        ∷ int top_n
        ∷ lit " "
        ∷ lit "OBJECT_SCHEMA_NAME(mid.object_id) AS schema_name, "
        ∷ lit "OBJECT_NAME(mid.object_id) AS table_name, "
        ∷ lit "mid.equality_columns, "
        ∷ lit "mid.inequality_columns, "
        ∷ lit "mid.included_columns, "
        ∷ lit "migs.avg_total_user_cost * migs.avg_user_impact * (migs.user_seeks + "
        ∷ lit "migs.user_scans) AS estimated_impact, "
        ∷ lit "migs.user_seeks, "
        ∷ lit "migs.user_scans "
        ∷ lit "FROM sys.dm_db_missing_index_details mid "
        ∷ lit "JOIN sys.dm_db_missing_index_groups mig ON mig.index_handle = "
        ∷ lit "mid.index_handle "
        ∷ lit "JOIN sys.dm_db_missing_index_group_stats migs ON migs.group_handle = "
        ∷ lit "mig.index_group_handle "
        ∷ lit "WHERE mid.database_id = DB_ID() "
        ∷ lit "ORDER BY estimated_impact DESC"
        ∷ []))

unfoldable pub unused_indexes_query : ℤ → Outcome Text
unfolding rendered validate_top_n
unused_indexes_query top_n = do
  top_n ← validate_top_n top_n
  ok (
      rendered (
        lit "SELECT TOP "
        ∷ int top_n
        ∷ lit " "
        ∷ lit "OBJECT_SCHEMA_NAME(i.object_id) AS schema_name, "
        ∷ lit "OBJECT_NAME(i.object_id) AS table_name, "
        ∷ lit "i.name AS index_name, "
        ∷ lit "i.type_desc, "
        ∷ lit "ISNULL(ius.user_seeks + ius.user_scans + ius.user_lookups, 0) AS total_reads, "
        ∷ lit "ISNULL(ius.user_updates, 0) AS total_writes, "
        ∷ lit "o.create_date AS table_create_date "
        ∷ lit "FROM sys.indexes i "
        ∷ lit "JOIN sys.objects o ON o.object_id = i.object_id "
        ∷ lit "LEFT JOIN sys.dm_db_index_usage_stats ius "
        ∷ lit "  ON ius.object_id = i.object_id AND ius.index_id = i.index_id AND "
        ∷ lit "ius.database_id = DB_ID() "
        ∷ lit "WHERE i.type_desc = 'NONCLUSTERED' "
        ∷ lit "  AND i.is_disabled = 0 "
        ∷ lit "  AND OBJECTPROPERTY(i.object_id, 'IsUserTable') = 1 "
        ∷ lit "  AND ISNULL(ius.user_seeks + ius.user_scans + ius.user_lookups, 0) = 0 "
        ∷ lit "  AND ISNULL(ius.user_updates, 0) > 10 "
        ∷ lit "  AND o.create_date < DATEADD(DAY, -7, GETDATE()) "
        ∷ lit "ORDER BY total_writes DESC, i.name"
        ∷ []))

unfoldable pub redundant_indexes_query : ℤ → Outcome Text
unfolding rendered validate_top_n
redundant_indexes_query top_n = do
  top_n ← validate_top_n top_n
  ok (
      rendered (
        lit "WITH leading_keys AS ("
        ∷ lit "  SELECT i.object_id, i.index_id, i.name, ic.column_id "
        ∷ lit "  FROM sys.indexes i "
        ∷ lit "  JOIN sys.index_columns ic "
        ∷ lit "    ON ic.object_id = i.object_id AND ic.index_id = i.index_id AND "
        ∷ lit "ic.key_ordinal = 1 "
        ∷ lit "  WHERE i.type_desc = 'NONCLUSTERED' "
        ∷ lit "    AND i.is_disabled = 0 "
        ∷ lit "    AND i.is_hypothetical = 0 "
        ∷ lit "    AND OBJECTPROPERTY(i.object_id, 'IsUserTable') = 1"
        ∷ lit ") "
        ∷ lit "SELECT TOP "
        ∷ int top_n
        ∷ lit " "
        ∷ lit "OBJECT_SCHEMA_NAME(a.object_id) AS schema_name, "
        ∷ lit "OBJECT_NAME(a.object_id) AS table_name, "
        ∷ lit "a.name AS index_a, "
        ∷ lit "b.name AS index_b, "
        ∷ lit "COL_NAME(a.object_id, a.column_id) AS shared_leading_key_column "
        ∷ lit "FROM leading_keys a "
        ∷ lit "JOIN leading_keys b "
        ∷ lit "  ON b.object_id = a.object_id "
        ∷ lit " AND b.column_id = a.column_id "
        ∷ lit " AND b.index_id > a.index_id "
        ∷ lit "ORDER BY schema_name, table_name, index_a"
        ∷ []))

unfoldable pub duplicate_key_candidate_query : ℤ → Outcome Text
unfolding rendered validate_top_n
duplicate_key_candidate_query top_n = do
  top_n ← validate_top_n top_n
  ok (
      rendered (
        lit "SELECT TOP "
        ∷ int top_n
        ∷ lit " "
        ∷ lit "OBJECT_SCHEMA_NAME(i.object_id) AS schema_name, "
        ∷ lit "OBJECT_NAME(i.object_id) AS table_name, "
        ∷ lit "COL_NAME(ic.object_id, ic.column_id) AS column_name, "
        ∷ lit "COUNT(*) AS index_count "
        ∷ lit "FROM sys.indexes i "
        ∷ lit "JOIN sys.index_columns ic ON ic.object_id = i.object_id AND ic.index_id = "
        ∷ lit "i.index_id "
        ∷ lit "WHERE i.is_unique = 0 AND i.is_hypothetical = 0 AND ic.key_ordinal = 1 "
        ∷ lit "AND OBJECTPROPERTY(i.object_id, 'IsUserTable') = 1 "
        ∷ lit "GROUP BY i.object_id, ic.object_id, ic.column_id "
        ∷ lit "HAVING COUNT(*) > 1 "
        ∷ lit "ORDER BY index_count DESC"
        ∷ []))

-- ===== src/Tools/Catalogue/Server.antt =====
-- tools/query_catalog.py: the queries about the principals, the backups and the settings of a server.
use mcp_sql_server.Tools.Catalogue.{validate_top_n}
use mcp_sql_server.Db.Reads.{rendered}
use mcp_sql_server.Common.{Outcome, Text, [], int, lit, ok, ℤ, ◌>>=◌, ◌∷◌}

unfoldable pub orphan_user_query : Outcome Text
unfolding rendered
orphan_user_query = ok (
    rendered (
      lit "SELECT dp.name AS user_name "
      ∷ lit "FROM sys.database_principals dp "
      ∷ lit "LEFT JOIN sys.server_principals sp ON dp.sid = sp.sid "
      ∷ lit "WHERE dp.type IN ('S','U','G') AND dp.principal_id > 4 AND sp.sid IS NULL "
      ∷ lit "OPTION (RECOMPILE)"
      ∷ []))

unfoldable pub elevated_roles_query : Outcome Text
unfolding rendered
elevated_roles_query = ok (
    rendered (
      lit "SELECT r.name AS role_name, m.name AS member_name "
      ∷ lit "FROM sys.database_role_members drm "
      ∷ lit "JOIN sys.database_principals r ON drm.role_principal_id = r.principal_id "
      ∷ lit "JOIN sys.database_principals m ON drm.member_principal_id = m.principal_id "
      ∷ lit "WHERE r.name IN ('db_owner','db_securityadmin','db_accessadmin')"
      ∷ []))

unfoldable pub backup_recency_query : Outcome Text
unfolding rendered
backup_recency_query = ok (
    rendered (
      lit "SELECT d.name AS database_name, b.last_backup_finish_date "
      ∷ lit "FROM master.sys.databases d "
      ∷ lit "OUTER APPLY ("
      ∷ lit "  SELECT TOP 1 bs.backup_finish_date AS last_backup_finish_date "
      ∷ lit "  FROM msdb.dbo.backupset bs "
      ∷ lit "  WHERE bs.database_name = d.name AND bs.type = 'D' "
      ∷ lit "  ORDER BY bs.backup_finish_date DESC"
      ∷ lit ") b "
      ∷ lit "ORDER BY d.name"
      ∷ []))

unfoldable pub server_config_flags_query : Outcome Text
unfolding rendered
server_config_flags_query = ok (
    rendered (
      lit "SELECT name, value_in_use "
      ∷ lit "FROM sys.configurations "
      ∷ lit "WHERE name IN ('xp_cmdshell','clr enabled','cross db ownership chaining','Ole "
      ∷ lit "Automation Procedures') "
      ∷ lit "ORDER BY name"
      ∷ []))

unfoldable pub trustworthy_databases_query : Outcome Text
unfolding rendered
trustworthy_databases_query = ok (
    rendered (
      lit "SELECT name AS database_name, is_trustworthy_on "
      ∷ lit "FROM sys.databases "
      ∷ lit "WHERE is_trustworthy_on = 1 AND name NOT IN ('msdb') "
      ∷ lit "ORDER BY name"
      ∷ []))

unfoldable pub guest_access_query : Outcome Text
unfolding rendered
guest_access_query = ok (
    rendered (
      lit "SELECT DB_NAME() AS database_name "
      ∷ lit "WHERE EXISTS ("
      ∷ lit "  SELECT 1 FROM sys.database_permissions dp "
      ∷ lit "  JOIN sys.database_principals guest ON guest.principal_id = "
      ∷ lit "dp.grantee_principal_id AND guest.name = 'guest' "
      ∷ lit "  WHERE dp.permission_name = 'CONNECT' AND dp.state_desc = 'GRANT'"
      ∷ lit ")"
      ∷ []))

unfoldable pub excessive_permissions_query : ℤ → Outcome Text
unfolding rendered validate_top_n
excessive_permissions_query top_n = do
  top_n ← validate_top_n top_n
  ok (
      rendered (
        lit "SELECT TOP "
        ∷ int top_n
        ∷ lit " "
        ∷ lit "dp.name AS principal_name, dp.type_desc, "
        ∷ lit "COUNT(*) AS explicit_grant_count "
        ∷ lit "FROM sys.database_permissions perm "
        ∷ lit "JOIN sys.database_principals dp ON dp.principal_id = "
        ∷ lit "perm.grantee_principal_id "
        ∷ lit "WHERE perm.state_desc = 'GRANT' AND dp.principal_id > 4 "
        ∷ lit "GROUP BY dp.name, dp.type_desc "
        ∷ lit "ORDER BY explicit_grant_count DESC"
        ∷ []))

-- ===== src/Tests/Access.antt =====
-- security/privilege_mapper.py, tools/tool_flags.py and tools/tool_registry.py at concrete values.
use mcp_sql_server.Common.{
  Text, [], codes, false, is_space, lower_char, lstrip, ok, refl, rstrip, text_eq, true, ◌↔◌, ◌∷◌,
  ◌≡◌,
}
use mcp_sql_server.Security.Privilege.Levels.{Shares, level_exact}
use mcp_sql_server.Security.Privilege.{
  Match, items, none_level, read_level, resolve_group_privilege, to_set, write_level,
}
use mcp_sql_server.Models.{RuntimePolicy, default_policy}

abbrev ops : Text
ops = codes "ops"

abbrev dba : Text
dba = codes "dba"

abbrev matched : Match
matched = record {
  group_authorization_enabled = true;
  matched_read_groups = ops ∷ [];
  matched_write_groups = [];
}

ops_reads :
    resolve_group_privilege (items (codes " OPS " ∷ [])) (ops ∷ []) (dba ∷ []) true
    ≡ ok (read_level, matched)
unfolding resolve_group_privilege lstrip rstrip is_space lower_char text_eq to_set
ops_reads = refl

level_exact_example :
    let groups = codes " OPS " ∷ [] in
    ((read_level ≡ write_level) ↔ Shares groups (dba ∷ []))
    × ((read_level ≡ read_level) ↔ ((¬ Shares groups (dba ∷ [])) × Shares groups (ops ∷ [])))
    × ((read_level ≡ none_level) ↔ ((¬ Shares groups (dba ∷ [])) × (¬ Shares groups (ops ∷ []))))
level_exact_example =
    level_exact (items (codes " OPS " ∷ [])) (ops ∷ []) (dba ∷ []) read_level matched ops_reads

both_write :
    resolve_group_privilege (items (codes " OPS " ∷ dba ∷ [])) (ops ∷ []) (dba ∷ []) true
    ≡ ok (write_level, record matched { matched_write_groups = dba ∷ [] })
unfolding resolve_group_privilege lstrip rstrip is_space lower_char text_eq to_set
both_write = refl

abbrev policy : RuntimePolicy
policy = record default_policy {
  tool_enable_flags = (codes "select", false) ∷ [];
  instance_tool_enable_flags = (codes "primary", (codes "select", true) ∷ []) ∷ [];
}

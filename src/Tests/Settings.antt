-- ===== src/Tests/Settings.antt =====
-- config_loader.py at a concrete environment.
use mcp_sql_server.Tools.Flags.{is_tool_enabled}
use mcp_sql_server.Config.Overrides.{instance_flag_decides}
use mcp_sql_server.Config.{
  Env, Json, apply_policy_env_overrides, bool_entries, boolean, member, nested_entries, no_members,
  object, overridden, parse_nested_bool_map, setting,
}
use mcp_sql_server.Models.{SqlInstanceConfig, default_instance, default_policy}
use mcp_sql_server.Common.{
  Bool, Dict, Option, Text, [], codes, false, insert, lookup, refl, some, text_eq, ◌∷◌, ◌≡◌,
}

abbrev env : Env
env =
    (codes "FASTMCP_SQL_POOL_MAX", codes " 1_2 ")
    ∷ (codes "FASTMCP_INSTANCE_TOOL_ENABLE_FLAGS_JSON", codes "{...}")
    ∷ []

-- What the JSON text stands for: `{"a": {"select": false}}`.
abbrev json_loads : Text → Option Json
json_loads _ = some (
    object
      (member (codes "a") (object (member (codes "select") (boolean false) no_members)) no_members))

abbrev flags : Dict (Dict Bool)
flags = (codes "a", (codes "select", false) ∷ []) ∷ []

instance_flag_decides_example :
    is_tool_enabled
      (record default_policy { instance_tool_enable_flags = flags })
      (codes "a")
      (codes "select")
    ≡ false
unfolding setting parse_nested_bool_map nested_entries bool_entries insert lookup text_eq
    apply_policy_env_overrides overridden
instance_flag_decides_example =
    instance_flag_decides json_loads default_policy
      (record default_policy { instance_tool_enable_flags = flags }) env (codes "{...}") flags
      (codes "a") (codes "select") ((codes "select", false) ∷ []) false refl refl refl refl refl

abbrev server : SqlInstanceConfig
server = default_instance (codes "a") (codes "h") (codes "master") (codes "SQL")

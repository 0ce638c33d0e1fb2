-- ===== src/Config/Settings.antt =====
-- config_loader.py: the overrides of the instances and of the authentication.
use mcp_sql_server.Config.{
  Env, overridden, parse_bool_value, parse_csv_values, parse_int_value, parse_positive_int_value,
  setting,
}
use mcp_sql_server.Models.{AuthConfig, SqlInstanceConfig}
use mcp_sql_server.Common.{
  Bool, List, Option, Outcome, Text, codes, map, none, ok, or_default, some, strip, ℤ, ◌>>=◌,
}

-- The settings of `apply_instance_env_overrides`: each one that is set, for every instance.
pub record PoolSettings : Type 0 where
  pub pool_enabled : Option Bool
  pub pool_max : Option ℤ
  pub pool_idle_timeout_sec : Option ℤ
  pub pool_acquire_timeout_sec : Option ℤ

-- `if raw: update_data[...] = parse(name, raw)`
unfoldable pub parsed_setting :
    {A : Type 0} → Env → (Text → Text → Outcome A) → Text → Outcome (Option A)
unfolding setting
parsed_setting env parse name = elim (setting env name) [
  | none ↦ ok none
  | some raw ↦ parse name raw >>= (λ value. ok (some value))
]

unfoldable pub pool_settings : Env → Outcome PoolSettings
unfolding parsed_setting parse_bool_value parse_positive_int_value
pool_settings env = do
  enabled ← parsed_setting env parse_bool_value (codes "FASTMCP_SQL_POOL_ENABLED")
  most ← parsed_setting env parse_positive_int_value (codes "FASTMCP_SQL_POOL_MAX")
  idle ← parsed_setting env parse_positive_int_value (codes "FASTMCP_SQL_POOL_IDLE_TIMEOUT_SEC")
  acquire ←
      parsed_setting env parse_positive_int_value (codes "FASTMCP_SQL_POOL_ACQUIRE_TIMEOUT_SEC")
  ok (record {
    pool_enabled = enabled;
    pool_max = most;
    pool_idle_timeout_sec = idle;
    pool_acquire_timeout_sec = acquire;
  })

-- `instance.model_copy(update=update_data)`
unfoldable pub updated : PoolSettings → SqlInstanceConfig → SqlInstanceConfig
updated s instance_config = record instance_config {
  pool_enabled = or_default s.pool_enabled instance_config.pool_enabled;
  pool_max = or_default s.pool_max instance_config.pool_max;
  pool_idle_timeout_sec = or_default s.pool_idle_timeout_sec instance_config.pool_idle_timeout_sec;
  pool_acquire_timeout_sec =
      or_default s.pool_acquire_timeout_sec instance_config.pool_acquire_timeout_sec;
}

-- `apply_instance_env_overrides`
unfoldable pub apply_instance_env_overrides :
    List SqlInstanceConfig → Env → Outcome (List SqlInstanceConfig)
unfolding pool_settings updated
apply_instance_env_overrides instances env = do
  settings ← pool_settings env
  ok (map (updated settings) instances)

abbrev pub stripped : Text → Outcome Text
stripped raw = ok (strip raw)

abbrev pub stripped_some : Text → Outcome (Option Text)
stripped_some raw = ok (some (strip raw))

abbrev pub csv : Text → Outcome (List Text)
csv raw = ok (parse_csv_values raw)

-- One field of the authentication: the setting of that name, or the old value.
unfoldable pub field : {A : Type 0} → Env → Text → (Text → Outcome A) → A → Outcome A
unfolding setting overridden
field env name parse old = overridden (setting env name) parse old

-- `apply_auth_env_overrides`
unfoldable pub apply_auth_env_overrides : AuthConfig → Env → Outcome AuthConfig
unfolding field parse_bool_value parse_int_value parse_csv_values strip
apply_auth_env_overrides auth env = do
  mode ← field env (codes "FASTMCP_AUTH_MODE") stripped auth.auth_mode
  enabled ←
      field env (codes "FASTMCP_AZURE_AUTH_ENABLED")
        (parse_bool_value (codes "FASTMCP_AZURE_AUTH_ENABLED")) auth.azure_auth_enabled
  groups_enabled ←
      field env (codes "FASTMCP_AZURE_GROUP_AUTHORIZATION_ENABLED")
        (parse_bool_value (codes "FASTMCP_AZURE_GROUP_AUTHORIZATION_ENABLED"))
        auth.azure_group_authorization_enabled
  tenant ← field env (codes "FASTMCP_AZURE_TENANT_ID") stripped_some auth.azure_tenant_id
  client ← field env (codes "FASTMCP_AZURE_CLIENT_ID") stripped_some auth.azure_client_id
  secret ←
      field env (codes "FASTMCP_AZURE_CLIENT_SECRET_REF") stripped_some auth.azure_client_secret_ref
  scopes ← field env (codes "FASTMCP_AZURE_REQUIRED_SCOPES") csv auth.azure_required_scopes
  base_url ← field env (codes "FASTMCP_AZURE_BASE_URL") stripped_some auth.azure_base_url
  identifier ←
      field env (codes "FASTMCP_AZURE_IDENTIFIER_URI") stripped_some auth.azure_identifier_uri
  claim_name ←
      field env (codes "FASTMCP_AZURE_GROUP_CLAIM_NAME") stripped auth.azure_group_claim_name
  read ← field env (codes "FASTMCP_AZURE_READ_GROUPS") csv auth.azure_read_groups
  write ← field env (codes "FASTMCP_AZURE_WRITE_GROUPS") csv auth.azure_write_groups
  connections ←
      field env (codes "FASTMCP_POOL_MAX_CONNECTIONS")
        (parse_int_value (codes "FASTMCP_POOL_MAX_CONNECTIONS")) auth.pool_max_connections
  keepalive ←
      field env (codes "FASTMCP_POOL_MAX_KEEPALIVE")
        (parse_int_value (codes "FASTMCP_POOL_MAX_KEEPALIVE")) auth.pool_max_keepalive_connections
  timeout ←
      field env (codes "FASTMCP_POOL_TIMEOUT_SECONDS")
        (parse_int_value (codes "FASTMCP_POOL_TIMEOUT_SECONDS")) auth.pool_timeout_seconds
  ok (record auth {
    auth_mode = mode;
    azure_auth_enabled = enabled;
    azure_group_authorization_enabled = groups_enabled;
    azure_tenant_id = tenant;
    azure_client_id = client;
    azure_client_secret_ref = secret;
    azure_required_scopes = scopes;
    azure_base_url = base_url;
    azure_identifier_uri = identifier;
    azure_group_claim_name = claim_name;
    azure_read_groups = read;
    azure_write_groups = write;
    pool_max_connections = connections;
    pool_max_keepalive_connections = keepalive;
    pool_timeout_seconds = timeout;
  })

-- ===== src/Models.antt =====
-- models.py: the configuration records. `| None` is `Option`, `dict[str, _]` is `Dict`.
use mcp_sql_server.Common.{Bool, Dict, List, Option, Text, [], codes, false, none, pos, true, ℤ}

pub record SqlInstanceConfig : Type 0 where
  pub id : Text
  pub host : Text
  pub port : ℤ
  pub database : Text
  pub auth_secret_ref : Text
  pub encrypt : Bool
  pub trust_server_certificate : Bool
  pub connect_timeout_sec : ℤ
  pub command_timeout_sec : ℤ
  pub pool_min : ℤ
  pub pool_max : ℤ
  pub pool_enabled : Bool
  pub pool_idle_timeout_sec : ℤ
  pub pool_acquire_timeout_sec : ℤ
  pub enabled : Bool

-- The values of `allowed_tools`: names of lists to lists of procedures.
pub record RuntimePolicy : Type 0 where
  pub write_mode_default : Text
  pub allowed_write_tools : List Text
  pub procedure_name_match_mode : Text
  pub procedure_default_schema : Text
  pub blocked_sql_patterns : List Text
  pub max_result_rows : ℤ
  pub max_query_duration_ms : ℤ
  pub instance_enable_flags : Dict Bool
  pub tool_enable_flags : Dict Bool
  pub instance_tool_enable_flags : Dict (Dict Bool)
  pub allowed_tools : Dict (Dict (List Text))

pub record AuthConfig : Type 0 where
  pub auth_mode : Text
  pub azure_auth_enabled : Bool
  pub azure_group_authorization_enabled : Bool
  pub azure_tenant_id : Option Text
  pub azure_client_id : Option Text
  pub azure_client_secret_ref : Option Text
  pub azure_required_scopes : List Text
  pub azure_base_url : Option Text
  pub azure_identifier_uri : Option Text
  pub azure_group_claim_name : Text
  pub azure_read_groups : List Text
  pub azure_write_groups : List Text
  pub pool_max_connections : ℤ
  pub pool_max_keepalive_connections : ℤ
  pub pool_timeout_seconds : ℤ

pub record RateLimitSection : Type 0 where
  pub requests_per_minute : ℤ
  pub burst : ℤ

pub record SessionLimits : Type 0 where
  pub concurrent_sessions_limit : ℤ
  pub session_ttl_minutes : ℤ
  pub inactivity_timeout_minutes : ℤ

pub record RateLimitConfig : Type 0 where
  pub global : RateLimitSection
  pub actor : RateLimitSection
  pub session : SessionLimits

-- The defaults of the fields of an instance that have one.
unfoldable pub default_instance : Text → Text → Text → Text → SqlInstanceConfig
default_instance id host database auth_secret_ref = record {
  id = id;
  host = host;
  port = pos 1433;
  database = database;
  auth_secret_ref = auth_secret_ref;
  encrypt = true;
  trust_server_certificate = false;
  connect_timeout_sec = pos 5;
  command_timeout_sec = pos 30;
  pool_min = pos 2;
  pool_max = pos 20;
  pool_enabled = true;
  pool_idle_timeout_sec = pos 300;
  pool_acquire_timeout_sec = pos 5;
  enabled = true;
}

abbrev pub default_policy : RuntimePolicy
default_policy = record {
  write_mode_default = codes "deny";
  allowed_write_tools = [];
  procedure_name_match_mode = codes "default_schema_expand";
  procedure_default_schema = codes "dbo";
  blocked_sql_patterns = [];
  max_result_rows = pos 5000;
  max_query_duration_ms = pos 15000;
  instance_enable_flags = [];
  tool_enable_flags = [];
  instance_tool_enable_flags = [];
  allowed_tools = [];
}

abbrev pub default_auth : AuthConfig
default_auth = record {
  auth_mode = codes "disabled";
  azure_auth_enabled = false;
  azure_group_authorization_enabled = false;
  azure_tenant_id = none;
  azure_client_id = none;
  azure_client_secret_ref = none;
  azure_required_scopes = [];
  azure_base_url = none;
  azure_identifier_uri = none;
  azure_group_claim_name = codes "groups";
  azure_read_groups = [];
  azure_write_groups = [];
  pool_max_connections = pos 10;
  pool_max_keepalive_connections = pos 10;
  pool_timeout_seconds = pos 10;
}

-- ===== src/Config/Overrides.antt =====
-- What the overrides by environment variables come to.
use mcp_sql_server.Config.Settings.{
  PoolSettings, apply_instance_env_overrides, parsed_setting, pool_settings, updated,
}
use mcp_sql_server.Tools.Flags.{is_tool_enabled}
use mcp_sql_server.Config.{
  Env, Json, apply_policy_env_overrides, instance_flags_name, overridden, parse_bool_map,
  parse_bool_value, parse_int_value, parse_nested_bool_map, parse_positive_int_value, setting,
  tool_flags_name,
}
use mcp_sql_server.Models.{RuntimePolicy, SqlInstanceConfig}
use mcp_sql_server.Common.{
  >>=-returns, Bool, Dict, List, Option, Option-cases, Outcome, Text, [], ap, arith, codes, inl,
  inr, lookup, map, none, ok, or_default, pos, refl, some, ℤ, ◌>>=◌, ◌∙◌, ◌∷◌, ◌≡◌, ◌≤ℤ◌, ◌⊎◌,
}

-- A relation between two lists, item by item.
abbrev pub Pairwise : {A B : Type 0} → (A → B → Type 0) → List A → List B → Type 0
Pairwise P [] [] = Unit
Pairwise P (x ∷ xs) (y ∷ ys) = P x y × Pairwise P xs ys
Pairwise P [] (y ∷ ys) = ⊥
Pairwise P (x ∷ xs) [] = ⊥

flag_decides :
    (policy : RuntimePolicy) (instance_id toolname : Text) (inner : Dict Bool) (b : Bool)
    → lookup instance_id policy.instance_tool_enable_flags ≡ some inner
    → lookup toolname inner ≡ some b
    → is_tool_enabled policy instance_id toolname ≡ b
unfolding is_tool_enabled
flag_decides policy instance_id toolname inner b at_instance at_tool =
    ground (arith, at_instance, at_tool)

-- A flag of `FASTMCP_INSTANCE_TOOL_ENABLE_FLAGS_JSON` decides: where the variable is set and the
-- overrides are accepted, a tool that it flags for an instance is enabled there exactly as the flag
-- says, whatever the configuration and the other variable say.
pub instance_flag_decides :
    (json_loads : Text → Option Json) (policy policy' : RuntimePolicy) (env : Env) (raw : Text)
    (flags : Dict (Dict Bool)) (instance_id toolname : Text) (inner : Dict Bool) (b : Bool)
    → setting env instance_flags_name ≡ some raw
    → parse_nested_bool_map instance_flags_name (json_loads raw) ≡ ok flags
    → lookup instance_id flags ≡ some inner
    → lookup toolname inner ≡ some b
    → apply_policy_env_overrides json_loads policy env ≡ ok policy'
    → is_tool_enabled policy' instance_id toolname ≡ b
unfolding apply_policy_env_overrides overridden
instance_flag_decides json_loads policy policy' env raw flags instance_id toolname inner b is_set
      parsed at_instance at_tool h =
    let parse_tools = λ (raw : Text). parse_bool_map tool_flags_name (json_loads raw) in
    let parse_instances =
      λ (raw : Text). parse_nested_bool_map instance_flags_name (json_loads raw) in
    let (tools, _, rest) =
      >>=-returns (overridden (setting env tool_flags_name) parse_tools policy.tool_enable_flags) _
        h in
    let (instances, chosen, made) =
      >>=-returns
        (overridden (setting env instance_flags_name) parse_instances
          policy.instance_tool_enable_flags)
        _ rest in
    let same : flags ≡ instances = ground arith in
    let given : policy'.instance_tool_enable_flags ≡ flags = ground arith in
    flag_decides policy' instance_id toolname inner b (ap (lookup instance_id) given ∙ at_instance)
      at_tool

positive : (name raw : Text) (n : ℤ) → parse_positive_int_value name raw ≡ ok n → pos 1 ≤ℤ n
unfolding parse_positive_int_value
positive name raw n h =
    let (value, parsed, rest) = >>=-returns (parse_int_value name raw) _ h in ground arith

-- The size of the pool is the old one, or that of the environment and at least one.
abbrev SizeOverridden : Env → ℤ → ℤ → Type 0
SizeOverridden env old new =
    ((setting env (codes "FASTMCP_SQL_POOL_MAX") ≡ none) × (new ≡ old))
    ⊎ ((raw : Text) × (setting env (codes "FASTMCP_SQL_POOL_MAX") ≡ some raw)
        × (parse_positive_int_value (codes "FASTMCP_SQL_POOL_MAX") raw ≡ ok new)
        × (pos 1 ≤ℤ new))

-- How an instance may differ after the overrides.
abbrev pub Overridden : Env → SqlInstanceConfig → SqlInstanceConfig → Type 0
Overridden env old new =
    (new.id ≡ old.id)
    × (new.host ≡ old.host)
    × (new.port ≡ old.port)
    × (new.database ≡ old.database)
    × (new.auth_secret_ref ≡ old.auth_secret_ref)
    × (new.enabled ≡ old.enabled)
    × SizeOverridden env old.pool_max new.pool_max

chosen_some :
    (value : ℤ) (chosen : Option ℤ)
    → ◌≡◌ {A = Outcome (Option ℤ)} (ok (some value)) (ok chosen)
    → chosen ≡ some value
chosen_some value chosen h = cc

chosen_size :
    (env : Env) (chosen : Option ℤ) (old : ℤ)
    → parsed_setting env parse_positive_int_value (codes "FASTMCP_SQL_POOL_MAX") ≡ ok chosen
    → SizeOverridden env old (or_default chosen old)
unfolding parsed_setting
chosen_size env chosen old h =
    let name = codes "FASTMCP_SQL_POOL_MAX" in
    elim (Option-cases (setting env name)) [
      | inl unset ↦ let no_size : chosen ≡ none = ground arith in inl (unset, rw no_size refl)
      | inr (raw, is_set) ↦
          let inside : (parse_positive_int_value name raw >>= (λ value. ok (some value)))
              ≡ ok chosen =
            rw (is_set, parsed_setting) at h in
          let (value, parsed, same) =
            >>=-returns (parse_positive_int_value name raw)
              (λ (v : ℤ). let o : Outcome (Option ℤ) = ok (some v) in o) inside in
          let new = chosen_some value chosen same in
          inr (raw, is_set, rw new parsed, rw new (positive name raw value parsed))
    ]

updated-Overridden :
    (env : Env) (s : PoolSettings) (old : SqlInstanceConfig)
    → parsed_setting env parse_positive_int_value (codes "FASTMCP_SQL_POOL_MAX") ≡ ok s.pool_max
    → Overridden env old (updated s old)
unfolding updated
updated-Overridden env s old h =
    (refl, refl, refl, refl, refl, refl, chosen_size env s.pool_max old.pool_max h)

size_setting :
    (env : Env) (s : PoolSettings)
    → pool_settings env ≡ ok s
    → parsed_setting env parse_positive_int_value (codes "FASTMCP_SQL_POOL_MAX") ≡ ok s.pool_max
unfolding pool_settings
size_setting env s h =
    let (enabled, _, after) =
      >>=-returns (parsed_setting env parse_bool_value (codes "FASTMCP_SQL_POOL_ENABLED")) _ h in
    let (size, parsed, later) =
      >>=-returns (parsed_setting env parse_positive_int_value (codes "FASTMCP_SQL_POOL_MAX")) _
        after in
    let (idle, _, last) =
      >>=-returns
        (parsed_setting env parse_positive_int_value (codes "FASTMCP_SQL_POOL_IDLE_TIMEOUT_SEC")) _
        later in
    let (acquire, _, made) =
      >>=-returns
        (parsed_setting env parse_positive_int_value (codes "FASTMCP_SQL_POOL_ACQUIRE_TIMEOUT_SEC"))
        _ last in
    let same : s.pool_max ≡ size = ground arith in rw same parsed

map-Overridden :
    (env : Env) (s : PoolSettings) (instances : List SqlInstanceConfig)
    → parsed_setting env parse_positive_int_value (codes "FASTMCP_SQL_POOL_MAX") ≡ ok s.pool_max
    → Pairwise (Overridden env) instances (map (updated s) instances)
map-Overridden env s [] h = tt
map-Overridden env s (i ∷ instances) h =
    (updated-Overridden env s i h, map-Overridden env s instances h)

-- The overrides of the instances, where they are accepted, keep every instance in its place with its
-- identity, its connection and whether it is enabled; the size of each pool is the configured one
-- if the environment sets none, and else the one that it sets, which is at least one.
instances-Overridden :
    (env : Env) (instances instances' : List SqlInstanceConfig)
    → apply_instance_env_overrides instances env ≡ ok instances'
    → Pairwise (Overridden env) instances instances'
unfolding apply_instance_env_overrides
instances-Overridden env instances instances' h =
    let (s, parsed, made) = >>=-returns (pool_settings env) _ h in
    let done : map (updated s) instances ≡ instances' = ground arith in
    rw (← done) (map-Overridden env s instances (size_setting env s parsed))

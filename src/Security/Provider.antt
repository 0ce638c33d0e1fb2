-- ===== src/Security/Provider.antt =====
-- security/auth_provider.py: `build_auth_provider`, and when there is a provider at all.
use mcp_sql_server.Tools.Authorize.{auth_enforced}
use mcp_sql_server.Security.Tokens.{Verifier, truthy}
use mcp_sql_server.Models.{AuthConfig}
use mcp_sql_server.Common.{
  Bool, Bool-cases, Error, List, Option, Outcome, Text, [], arith, codes, false, if◌then◌else◌, inl,
  inr, is_empty, is_some, lit, map, none, not, ok, or_default, raise, some, str, sym, text_eq,
  text_eq_iff, true, value_error, ◌&&◌, ◌++◌, ◌||◌, ◌∙◌, ◌∷◌, ◌≡◌,
}

abbrev pub unsupported_mode : Text → Error
unsupported_mode mode = value_error (lit "Unsupported auth_mode: " ∷ str mode ∷ [])

abbrev pub settings_missing : List Text → Error
settings_missing names =
    value_error
      (lit "Azure Entra auth is enabled but required settings are missing: " ∷ map str names)

unfoldable pub missing_settings : AuthConfig → List Text
missing_settings cfg =
    (if is_some (truthy cfg.azure_tenant_id) then [] else codes "azure_tenant_id" ∷ [])
    ++ (if is_some (truthy cfg.azure_client_id) then [] else codes "azure_client_id" ∷ [])

-- The verifier of a configuration, with empty caches.
abbrev pub new_verifier : {K : Type 0} → AuthConfig → Verifier K
new_verifier cfg = record {
  tenant_id = or_default cfg.azure_tenant_id [];
  client_id = or_default cfg.azure_client_id [];
  identifier_uri = cfg.azure_identifier_uri;
  required_scopes = cfg.azure_required_scopes;
  group_claim_name = cfg.azure_group_claim_name;
  config_cache_ttl_sec = 300;
  openid_config_cache = none;
  openid_config_cache_at = 0;
  jwks_cache = none;
  jwks_cache_at = 0;
}

-- `build_auth_provider`
unfoldable pub build_auth_provider : {K : Type 0} → AuthConfig → Outcome (Option (Verifier K))
unfolding missing_settings text_eq
build_auth_provider cfg =
    let disabled = text_eq cfg.auth_mode (codes "disabled") in
    let by_mode = text_eq cfg.auth_mode (codes "azure_token_verifier") in
    let names = missing_settings cfg in
    if not cfg.azure_auth_enabled && disabled
    then ok none
    else if not (by_mode || disabled)
    then raise (unsupported_mode cfg.auth_mode)
    else if not (cfg.azure_auth_enabled || by_mode)
    then ok none
    else if not (is_empty names)
    then raise (settings_missing names)
    else ok (some (new_verifier cfg))

modes_apart :
    (mode : Text)
    → text_eq mode (codes "disabled") ≡ true
    → text_eq mode (codes "azure_token_verifier") ≡ false
modes_apart mode h = elim (Bool-cases (text_eq mode (codes "azure_token_verifier"))) [
  | inr apart ↦ apart
  | inl both ↦ absurd (
      let same =
        sym ((text_eq_iff mode (codes "disabled")).0 h)
        ∙ (text_eq_iff mode (codes "azure_token_verifier")).0 both in
      cc)
]

built :
    {V : Type 0} (enabled disabled by_mode none_missing : Bool) (e f : Error) (new : V)
    (p : Option V)
    → (disabled ≡ true → by_mode ≡ false)
    → (if not enabled && disabled
        then ok none
        else if not (by_mode || disabled)
        then raise e
        else if not (enabled || by_mode)
        then ok none
        else if not none_missing
        then raise f
        else ok (some new))
      ≡ ok p
    → is_some p ≡ (enabled || by_mode)
built enabled disabled by_mode none_missing e f new p apart h = ground arith

-- The server has a verifier exactly where the tools enforce authentication: whenever the provider
-- can be built, there is one if and only if `_auth_enforced` holds.
provider_iff_enforced :
    {K : Type 0} (cfg : AuthConfig) (p : Option (Verifier K))
    → build_auth_provider cfg ≡ ok p
    → is_some p ≡ auth_enforced (some cfg)
unfolding build_auth_provider auth_enforced text_eq
provider_iff_enforced {K} cfg p h =
    built cfg.azure_auth_enabled (text_eq cfg.auth_mode (codes "disabled"))
      (text_eq cfg.auth_mode (codes "azure_token_verifier")) (is_empty (missing_settings cfg))
      (unsupported_mode cfg.auth_mode) (settings_missing (missing_settings cfg)) (new_verifier cfg)
      p (modes_apart cfg.auth_mode) h

-- ===== src/Security/Tokens/Cache.antt =====
-- How long the answers of the identity provider are kept.
use mcp_sql_server.Security.Tokens.{
  OpenidConfig, Verifier, fetch_config, get_openid_config, has_fields, is_fresh,
}
use mcp_sql_server.Common.{Option, Outcome, arith, if◌then◌else◌, none, ok, some, true, ℕ, ◌≡◌}

module _ {K : Type 0} where
  -- A configuration that was fetched is used, and nothing is fetched, until 300 seconds (the TTL of
  -- the verifier) after the time of its request; the answer at that time or later decides anew.
  pub config_cached :
      (now later : ℕ) (reply reply' : Outcome (Option OpenidConfig)) (v : Verifier K)
      (config : OpenidConfig)
      → v.openid_config_cache ≡ none
      → reply ≡ ok (some config)
      → has_fields config ≡ true
      → let fetched = (get_openid_config now reply v).1 in
        get_openid_config later reply' fetched ≡ (
          if is_fresh later now v.config_cache_ttl_sec
          then (ok config, fetched)
          else fetch_config later reply' fetched)
  unfolding get_openid_config fetch_config
  config_cached now later reply reply' v config none_yet answer good =
      ground (arith, none_yet, answer, good)

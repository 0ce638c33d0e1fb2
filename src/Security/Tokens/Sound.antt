-- ===== src/Security/Tokens/Sound.antt =====
-- What a token that is accepted has passed.
use mcp_sql_server.Security.Tokens.{
  AccessToken, Claims, Jwt, Key, OpenidConfig, Verifier, decode_token, extract_scopes, header_kid,
  validate_required_scopes,
}
use mcp_sql_server.Common.{In, List, Option, Outcome, Text, keys, ok, some, true, ◌≡◌}

module _ {K : Type 0} where
  -- What the look-up of a key leaves: the configuration as it was, and the key in the key set.
  abbrev Found : Text → Verifier K → Outcome (Option (Key K)) × Verifier K → Key K → Type 0
  Found kid v r key =
      (r.1.openid_config_cache ≡ v.openid_config_cache)
      × ((key_set : List (Key K)) × (r.1.jwks_cache ≡ some key_set)
          × In key key_set
          × (key.kid ≡ some kid))

module _ {K S : Type 0} (jwt : Jwt K S) where
  -- The access token comes from the claims that the library decoded with a key of the cached key
  -- set, for the issuer of the cached configuration, and has every scope that is required.
  abbrev pub Vouched : Text → Verifier K → AccessToken → Type 0
  Vouched token v access =
      (kid : Text) × (config : OpenidConfig) × (keys : List (Key K)) × (key : Key K)
      × (claims : Claims) × (header_kid (jwt.get_unverified_header token) ≡ some kid)
      × (v.openid_config_cache ≡ some config)
      × (v.jwks_cache ≡ some keys)
      × In key keys
      × (key.kid ≡ some kid)
      × (decode_token jwt v token config.issuer key ≡ ok claims)
      × (validate_required_scopes v (extract_scopes claims) ≡ true)
      × (access.scopes ≡ extract_scopes claims)
      × (access.token ≡ token)

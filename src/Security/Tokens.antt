-- ===== src/Security/Tokens.antt =====
-- security/auth_provider.py: `AzureEntraTokenVerifier` and `build_auth_provider`. What the identity
-- provider answers and what the JWT library decodes are parameters; times are microseconds.
pub mod Sound
pub mod Cache
use mcp_sql_server.Models.{AuthConfig}
use mcp_sql_server.Security.Privilege.{Claim, items}
use mcp_sql_server.Common.{
  Bool, Dict, Error, List, Option, Outcome, Text, [], all, codes, elem, false, has_key,
  if◌then◌else◌, insert, is_empty, is_some, keep, keys, lit, lookup, ltb, map, none, not, ok,
  or_default, raise, some, split, str, strip, text_eq, text_of, true, value_error, ℕ, ℤ, ◌&&◌, ◌*◌,
  ◌++◌, ◌+◌, ◌>>=◌, ◌>>◌, ◌||◌, ◌∷◌,
}

-- A key of a key set: its id, and the rest of it.
pub record Key (K : Type 0) : Type 0 where
  pub kid : Option Text
  pub material : K

-- The fields of the OpenID configuration that are read.
pub record OpenidConfig : Type 0 where
  pub jwks_uri : Text
  pub issuer : Text

-- The claims of a decoded token: a scope claim that is no text is missing, and the three names of
-- the client are as `str` gives them, empty where the claim is missing.
pub record Claims : Type 0 where
  pub scp : Option Text
  pub groups : Dict Claim
  pub azp : Text
  pub appid : Text
  pub aud : Text
  pub exp : Option ℤ

pub record AccessToken : Type 0 where
  pub token : Text
  pub client_id : Text
  pub scopes : List Text
  pub expires_at : Option ℤ
  pub claims : Claims

pub record Verifier (K : Type 0) : Type 0 where
  pub tenant_id : Text
  pub client_id : Text
  pub identifier_uri : Option Text
  pub required_scopes : List Text
  pub group_claim_name : Text
  pub config_cache_ttl_sec : ℕ
  pub openid_config_cache : Option OpenidConfig
  pub openid_config_cache_at : ℕ
  pub jwks_cache : Option (List (Key K))
  pub jwks_cache_at : ℕ

-- The JWT library: the `kid` and `alg` of a header, the key of a JWK, and the claims of a token that
-- is signed with the key by RS256, for the audience and the issuer.
pub record Jwt (K S : Type 0) : Type 0 where
  pub get_unverified_header : Text → Option (Option Text × Option Text)
  pub from_jwk : Key K → Outcome S
  pub decode : Text → S → Text → Text → Outcome Claims

-- What the identity provider answers to the three requests that a verification may make, and the
-- clock at each: `none` where the answer has not the required form.
pub record Exchange (K : Type 0) : Type 0 where
  pub config_time : ℕ
  pub config_reply : Outcome (Option OpenidConfig)
  pub keys_time : ℕ
  pub keys_reply : Outcome (Option (List (Key K)))
  pub refresh_time : ℕ
  pub refresh_reply : Outcome (Option (List (Key K)))

abbrev pub second : ℕ
second = 1000000

abbrev pub bad_config : Error
bad_config = value_error (text_of "Azure OpenID configuration is missing required fields")

abbrev pub bad_jwks : Error
bad_jwks = value_error (text_of "Azure JWKS payload is invalid")

-- `(now - at) < ttl`
abbrev pub is_fresh : ℕ → ℕ → ℕ → Bool
is_fresh now at_time ttl = ltb now (at_time + ttl * second)

-- The test of `not payload.get("jwks_uri") or not payload.get("issuer")`.
abbrev pub has_fields : OpenidConfig → Bool
has_fields config = not (is_empty config.jwks_uri || is_empty config.issuer)

-- `a or b`, for the text of a setting.
abbrev pub setting_or : Option Text → Text → Text
setting_or none d = d
setting_or (some s) d = if is_empty s then d else s

abbrev pub truthy : Option Text → Option Text
truthy none = none
truthy (some s) = if is_empty s then none else some s

-- `_extract_scopes`
unfoldable pub extract_scopes : Claims → List Text
unfolding keep split strip
extract_scopes claims = elim claims.scp [
  | none ↦ []
  | some value ↦ keep (λ s. not (is_empty s)) (map strip (split 32 value))
]

module _ {K : Type 0} where
  unfoldable pub fetch_config :
      ℕ → Outcome (Option OpenidConfig) → Verifier K → Outcome OpenidConfig × Verifier K
  fetch_config now (raise e) v = (raise e, v)
  fetch_config now (ok none) v = (raise bad_config, v)
  fetch_config now (ok (some config)) v =
      if has_fields config
      then (ok config, record v { openid_config_cache = some config; openid_config_cache_at = now })
      else (raise bad_config, v)

  -- `_get_openid_config`
  unfoldable pub get_openid_config :
      ℕ → Outcome (Option OpenidConfig) → Verifier K → Outcome OpenidConfig × Verifier K
  unfolding fetch_config
  get_openid_config now reply v = elim v.openid_config_cache [
    | none ↦ fetch_config now reply v
    | some config ↦
        if is_fresh now v.openid_config_cache_at v.config_cache_ttl_sec
        then (ok config, v)
        else fetch_config now reply v
  ]

  unfoldable pub fetch_jwks :
      ℕ → Outcome (Option (List (Key K))) → Verifier K → Outcome (List (Key K)) × Verifier K
  fetch_jwks now (raise e) v = (raise e, v)
  fetch_jwks now (ok none) v = (raise bad_jwks, v)
  fetch_jwks now (ok (some keys)) v =
      (ok keys, record v { jwks_cache = some keys; jwks_cache_at = now })

  -- `_get_jwks`
  unfoldable pub get_jwks :
      Bool → ℕ → Outcome (Option (List (Key K))) → Verifier K → Outcome (List (Key K)) × Verifier K
  unfolding fetch_jwks
  get_jwks force_refresh now reply v = elim v.jwks_cache [
    | none ↦ fetch_jwks now reply v
    | some keys ↦
        if not force_refresh && is_fresh now v.jwks_cache_at v.config_cache_ttl_sec
        then (ok keys, v)
        else fetch_jwks now reply v
  ]

  -- `k.get("kid") == kid`
  unfoldable pub has_kid : Text → Key K → Bool
  unfolding text_eq
  has_kid kid k = elim k.kid [ none ↦ false | some s ↦ text_eq s kid ]

  -- `next((k for k in keys if k.get("kid") == kid), None)`
  unfoldable pub find_key : Text → List (Key K) → Option (Key K)
  unfolding has_kid
  find_key kid [] = none
  find_key kid (k ∷ keys) = if has_kid kid k then some k else find_key kid keys

  -- A key that the cached set has not is looked for once more, in a set that is fetched.
  unfoldable pub refresh_on_miss :
      Exchange K → Text → Verifier K → Option (Key K) → Outcome (Option (Key K)) × Verifier K
  unfolding get_jwks find_key
  refresh_on_miss x kid v (some k) = (ok (some k), v)
  refresh_on_miss x kid v none =
      let (r, v') = get_jwks true x.refresh_time x.refresh_reply v in
      (r >>= (λ fresh. ok (find_key kid fresh)), v')

  unfoldable pub refreshed_key :
      Exchange K
      → Text
      → Outcome (List (Key K)) × Verifier K
      → Outcome (Option (Key K)) × Verifier K
  unfolding refresh_on_miss find_key
  refreshed_key x kid (raise e, v) = (raise e, v)
  refreshed_key x kid (ok key_set, v) = refresh_on_miss x kid v (find_key kid key_set)

  -- `_validate_required_scopes`
  unfoldable pub validate_required_scopes : Verifier K → List Text → Bool
  unfolding all elem
  validate_required_scopes v scopes = all (λ scope. elem scope scopes) v.required_scopes

  -- The group claim is there for the privilege mapping.
  unfoldable pub with_group_claim : Verifier K → Claims → Claims
  unfolding insert lookup
  with_group_claim v claims =
      if not (is_empty v.group_claim_name) && not (has_key v.group_claim_name claims.groups)
      then record claims { groups = insert v.group_claim_name (items []) claims.groups }
      else claims

  -- `claims.get("azp") or claims.get("appid") or claims.get("aud") or self._client_id`
  unfoldable pub client_of : Verifier K → Claims → Text
  client_of v claims =
      setting_or (some claims.azp)
        (setting_or (some claims.appid) (setting_or (some claims.aud) v.client_id))

  unfoldable pub access_token : Verifier K → Text → Claims → Option AccessToken
  unfolding extract_scopes validate_required_scopes with_group_claim client_of
  access_token v token claims =
      let scopes = extract_scopes claims in
      if not (validate_required_scopes v scopes)
      then none
      else some (record {
        token = token;
        client_id = client_of v claims;
        scopes = scopes;
        expires_at = claims.exp;
        claims = with_group_claim v claims;
      })

-- The key id of a header that has both a `kid` and an `alg`.
unfoldable pub header_kid : Option (Option Text × Option Text) → Option Text
header_kid none = none
header_kid (some (kid, alg)) = if is_some (truthy alg) then truthy kid else none

-- `except Exception: return None`
unfoldable pub accept : {K : Type 0} → Verifier K → Text → Outcome Claims → Option AccessToken
unfolding access_token
accept v token (raise e) = none
accept v token (ok claims) = access_token v token claims

module _ {K S : Type 0} (jwt : Jwt K S) where
  -- The signature and the claims, for the key that was found.
  unfoldable pub decode_token : Verifier K → Text → Text → Key K → Outcome Claims
  decode_token v token issuer key = do
    signing_key ← jwt.from_jwk key
    jwt.decode token signing_key (setting_or v.identifier_uri v.client_id) issuer

  unfoldable pub finish :
      Text → Text → Outcome (Option (Key K)) × Verifier K → Option AccessToken × Verifier K
  unfolding decode_token accept
  finish token issuer (raise e, v) = (none, v)
  finish token issuer (ok none, v) = (none, v)
  finish token issuer (ok (some key), v) = (accept v token (decode_token v token issuer key), v)

  unfoldable pub verify_with_config :
      Exchange K → Text → Text → Outcome OpenidConfig × Verifier K → Option AccessToken × Verifier K
  unfolding get_jwks refreshed_key finish
  verify_with_config x token kid (raise e, v) = (none, v)
  verify_with_config x token kid (ok config, v) =
      finish token config.issuer (refreshed_key x kid (get_jwks false x.keys_time x.keys_reply v))

  unfoldable pub verify_for :
      Exchange K → Text → Verifier K → Option Text → Option AccessToken × Verifier K
  unfolding get_openid_config verify_with_config
  verify_for x token v none = (none, v)
  verify_for x token v (some kid) =
      verify_with_config x token kid (get_openid_config x.config_time x.config_reply v)

  -- `verify_token`
  unfoldable pub verify_token : Exchange K → Text → Verifier K → Option AccessToken × Verifier K
  unfolding verify_for header_kid
  verify_token x token v = verify_for x token v (header_kid (jwt.get_unverified_header token))

-- ===== src/Tests/Tokens.antt =====
-- security/auth_provider.py at a concrete token. The library below takes every token as one that is
-- signed by the key.
use mcp_sql_server.Security.Provider.{new_verifier}
use mcp_sql_server.Security.Privilege.{items}
use mcp_sql_server.Security.Tokens.{AccessToken, Claims, Exchange, Jwt, Key, OpenidConfig, Verifier}
use mcp_sql_server.Models.{AuthConfig, default_auth}
use mcp_sql_server.Common.{Text, [], codes, ok, pos, some, ℕ, ◌∷◌}

abbrev claims : Claims
claims = record {
  scp = some (codes "user.read mcp.call");
  groups = [];
  azp = [];
  appid = codes "app";
  aud = codes "api";
  exp = some (pos 99);
}

abbrev jwt : Jwt ℕ ℕ
jwt = record {
  get_unverified_header = λ _. some (some (codes "k2"), some (codes "RS256"));
  from_jwk = λ key. ok key.material;
  decode = λ _ _ _ _. ok claims;
}

abbrev config : OpenidConfig
config = record { jwks_uri = codes "https://k"; issuer = codes "https://i" }

abbrev key : Text → Key ℕ
key id = record { kid = some id; material = 5 }

-- The first key set has not the key of the token; the second has.
abbrev exchange : Exchange ℕ
exchange = record {
  config_time = 1000;
  config_reply = ok (some config);
  keys_time = 1001;
  keys_reply = ok (some (key (codes "k1") ∷ []));
  refresh_time = 1002;
  refresh_reply = ok (some (key (codes "k2") ∷ []));
}

abbrev auth : AuthConfig
auth = record default_auth {
  auth_mode = codes "azure_token_verifier";
  azure_tenant_id = some (codes "t");
  azure_client_id = some (codes "c");
  azure_required_scopes = codes "mcp.call" ∷ [];
}

abbrev verifier : Verifier ℕ
verifier = new_verifier auth

abbrev cached : Verifier ℕ
cached = record verifier {
  openid_config_cache = some config;
  openid_config_cache_at = 1000;
  jwks_cache = some (key (codes "k2") ∷ []);
  jwks_cache_at = 1002;
}

abbrev access : AccessToken
access = record {
  token = codes "jwt";
  client_id = codes "app";
  scopes = codes "user.read" ∷ codes "mcp.call" ∷ [];
  expires_at = some (pos 99);
  claims = record claims { groups = (codes "groups", items []) ∷ [] };
}

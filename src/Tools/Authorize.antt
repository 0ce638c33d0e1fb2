-- ===== src/Tools/Authorize.antt =====
-- tools/sql_tools.py: `_auth_enforced`, `_resolve_actor_and_authorize` and the code of an error in
-- the audit log, with what `_extract_sql_error` makes of it.
use mcp_sql_server.Security.Privilege.{
  Claim, Level, Match, items, none_level, read_level, resolve_group_privilege, write_level,
}
use mcp_sql_server.Models.{AuthConfig}
use mcp_sql_server.Common.{
  Bool, Dict, Error, Message, Option, Outcome, Text, [], codes, database_error, elem, false,
  http_exception, if◌then◌else◌, is_empty, lit, lookup, none, not, ok, or_default, other_error,
  permission_error, raise, runtime_error, some, str, strip, text_eq, text_of, timeout_error,
  type_error, value_error, ◌&&◌, ◌>>=◌, ◌>>◌, ◌||◌, ◌∷◌,
}

-- The value of a claim of a token: missing, a text, or of another type, with its truth value.
pub data Value : Type 0 where
  missing : Value
  text : Text → Value
  other : Bool → Value

-- The claims that the authorisation reads.
pub record Token : Type 0 where
  pub preferred_username : Value
  pub oid : Value
  pub sub : Value
  pub upn : Value
  pub groups : Dict Claim

-- The context that goes to the audit log.
pub record Context : Type 0 where
  pub auth_mode : Text
  pub auth_subject : Value
  pub privilege_level : Level
  pub group_match_result : Match

unfoldable pub auth_enforced : Option AuthConfig → Bool
unfolding text_eq
auth_enforced none = false
auth_enforced (some cfg) =
    cfg.azure_auth_enabled || text_eq cfg.auth_mode (codes "azure_token_verifier")

unfoldable pub is_truthy : Value → Bool
is_truthy missing = false
is_truthy (text s) = not (is_empty s)
is_truthy (other b) = b

-- `a or b`
unfoldable pub value_or : Value → Value → Value
unfolding is_truthy
value_or a b = if is_truthy a then a else b

unfoldable pub subject_of : Token → Value
unfolding value_or
subject_of token =
    value_or (value_or (value_or token.preferred_username token.oid) token.sub) token.upn

-- The context where authentication is off.
abbrev pub disabled_context : Context
disabled_context = record {
  auth_mode = codes "disabled";
  auth_subject = missing;
  privilege_level = none_level;
  group_match_result = record {
    group_authorization_enabled = false;
    matched_read_groups = [];
    matched_write_groups = [];
  };
}

abbrev pub no_token : Error
no_token = permission_error (text_of "AUTH_FAILED: missing or invalid bearer token")

abbrev pub write_required : Error
write_required = permission_error (text_of "AUTH_FAILED: write privilege required")

abbrev pub read_required : Error
read_required = permission_error (text_of "AUTH_FAILED: read privilege required")

-- The two tests of the level that a tool requires.
unfoldable pub check_level : Level → Level → Outcome (Unit {0})
check_level write_level write_level = ok tt
check_level write_level _ = raise write_required
check_level read_level none_level = raise read_required
check_level read_level _ = ok tt
check_level none_level _ = ok tt

unfoldable pub resolve_actor : Text → Value → Text
unfolding elem
resolve_actor actor (text subject) =
    if elem actor (codes "system" ∷ codes "unknown" ∷ []) && not (is_empty subject)
    then subject
    else actor
resolve_actor actor _ = actor

-- `claims.get(name, [])`
abbrev pub groups_claim : AuthConfig → Token → Claim
groups_claim cfg token = or_default (lookup cfg.azure_group_claim_name token.groups) (items [])

unfoldable pub authorize_token : AuthConfig → Level → Token → Text → Outcome (Text × Context)
unfolding subject_of check_level resolve_actor lookup resolve_group_privilege
authorize_token cfg required token actor = do
  (level, group_match) ←
      resolve_group_privilege (groups_claim cfg token) cfg.azure_read_groups cfg.azure_write_groups
        cfg.azure_group_authorization_enabled
  check_level required level
  ok (
    resolve_actor actor (subject_of token),
    record {
      auth_mode = cfg.auth_mode;
      auth_subject = subject_of token;
      privilege_level = level;
      group_match_result = group_match;
    },
  )

-- `_resolve_actor_and_authorize`, for the token that `get_access_token()` answers.
unfoldable pub resolve_actor_and_authorize :
    Option AuthConfig → Level → Option Token → Text → Outcome (Text × Context)
unfolding auth_enforced authorize_token
resolve_actor_and_authorize none required token actor = ok (actor, disabled_context)
resolve_actor_and_authorize (some cfg) required token actor =
    if not (auth_enforced (some cfg))
    then ok (actor, disabled_context)
    else elim token [ none ↦ raise no_token | some t ↦ authorize_token cfg required t actor ]

-- The SQLSTATE that `_extract_sql_error` reads from the arguments of an exception. All exceptions
-- but the driver's are raised with one argument, their message, or with none.
unfoldable pub sqlstate_of : Error → Text
unfolding strip
sqlstate_of (database_error []) = []
sqlstate_of (database_error (message ∷ [])) = codes "HY000"
sqlstate_of (database_error (sqlstate ∷ message ∷ rest)) = strip sqlstate
sqlstate_of (other_error class_name []) = []
sqlstate_of _ = codes "HY000"

-- `exc.__class__.__name__`; the driver's exceptions are taken as of its base class.
unfoldable pub class_name : Error → Text
class_name (permission_error _) = codes "PermissionError"
class_name (value_error _) = codes "ValueError"
class_name (type_error _) = codes "TypeError"
class_name (timeout_error _) = codes "TimeoutError"
class_name (runtime_error _) = codes "RuntimeError"
class_name (http_exception _ _) = codes "HTTPException"
class_name (database_error _) = codes "Error"
class_name (other_error name _) = name

-- `str(exc)` for a denial, `sql_err["code"]` or `NON_SQL_ERROR:...` for another error.
unfoldable pub error_code_of : Error → Message
unfolding sqlstate_of class_name
error_code_of (permission_error m) = m
error_code_of e =
    if is_empty (sqlstate_of e)
    then lit "NON_SQL_ERROR:" ∷ str (class_name e) ∷ []
    else lit "SQL_ERROR_" ∷ str (sqlstate_of e) ∷ []

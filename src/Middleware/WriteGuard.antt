-- ===== src/Middleware/WriteGuard.antt =====
-- middleware/write_guard.py: `WriteGuard`.
pub mod Comments
pub mod Lead
pub mod Verbs
pub mod Procedures
pub mod Names
use mcp_sql_server.Models.{RuntimePolicy}
use mcp_sql_server.Common.{
  Bool, Error, List, Option, Outcome, Text, [], any, codes, elem, false, if◌then◌else◌, is_empty,
  is_space, keep, lit, lookup, lower, map, none, not, or_default, permission_error, raise, raise_if,
  some, split, starts_with, str, strip, suc, text_eq, text_of, true, upper, without, zero, ℕ, ◌&&◌,
  ◌++◌, ◌+◌, ◌-◌, ◌==◌, ◌>>=◌, ◌>>◌, ◌∷◌,
}

-- The length of the text up to and with its first `*/`.
unfoldable pub close_length : Text → Option ℕ
close_length [] = none
close_length (c ∷ s) =
    let later = close_length s in
    if starts_with (b'*' ∷ b'/' ∷ []) (c ∷ s)
    then some 2
    else elim later [ none ↦ none | some n ↦ some (suc n) ]

-- Where a match of the pattern /\*.*?\*/ begins here: its length.
unfoldable pub comment_length : Text → Option ℕ
unfolding close_length
comment_length (c ∷ d ∷ s) =
    if c == b'/' && d == b'*'
    then (elim (close_length s) [ none ↦ none | some n ↦ some (n + 2) ])
    else none
comment_length _ = none

-- `re.sub(r"/\*.*?\*/", "", s, flags=re.S)`, with the number of characters of the current match
-- that are still to be dropped.
unfoldable pub drop_blocks : ℕ → Text → Text
unfolding comment_length
drop_blocks skip [] = []
drop_blocks (suc skip) (c ∷ s) = drop_blocks skip s
drop_blocks zero (c ∷ s) = elim (comment_length (c ∷ s)) [
  | some n ↦ drop_blocks (n - 1) s
  | none ↦ c ∷ drop_blocks zero s
]

-- `re.sub(r"--.*?$", "", s, flags=re.M)`; the flag says that a match has begun.
unfoldable pub drop_lines : Bool → Text → Text
drop_lines inside [] = []
drop_lines true (c ∷ s) = if c == b'\n' then c ∷ drop_lines false s else drop_lines true s
drop_lines false (c ∷ s) =
    if starts_with (b'-' ∷ b'-' ∷ []) (c ∷ s) then drop_lines true s else c ∷ drop_lines false s

-- `s.split(None, 1)[0]` for a text that does not begin with white space, or ""
unfoldable pub first_word : Text → Text
first_word [] = []
first_word (c ∷ s) = if is_space c then [] else c ∷ first_word s

-- `_first_verb`
unfoldable pub first_verb : Text → Text
unfolding drop_blocks drop_lines strip first_word
first_verb sql = upper (first_word (strip (drop_lines false (drop_blocks 0 sql))))

abbrev pub write_verbs : List Text
write_verbs =
    codes "INSERT"
    ∷ codes "UPDATE"
    ∷ codes "DELETE"
    ∷ codes "MERGE"
    ∷ codes "EXEC"
    ∷ codes "EXECUTE"
    ∷ codes "CREATE"
    ∷ codes "ALTER"
    ∷ codes "DROP"
    ∷ codes "TRUNCATE"
    ∷ []

-- `_blocked` holds the searches of the compiled patterns: regular expressions of the policy are
-- configuration, and what they match is a parameter.
pub record WriteGuard : Type 0 where
  pub policy : RuntimePolicy
  pub blocked : List (Text → Bool)

unfoldable pub init : (Text → Text → Bool) → RuntimePolicy → WriteGuard
init search policy = record { policy = policy; blocked = map search policy.blocked_sql_patterns }

abbrev pub blocked_by_denylist : Error
blocked_by_denylist = permission_error (text_of "SQL blocked by denylist policy")

abbrev pub blocked_by_policy : Text → Error
blocked_by_policy tool_name =
    permission_error (lit "Write blocked by policy for tool " ∷ str tool_name ∷ [])

unfoldable pub is_write : Text → Bool
unfolding first_verb
is_write sql = elem (first_verb sql) write_verbs

-- `enforce`
unfoldable pub enforce : WriteGuard → Text → Text → Outcome (Unit {0})
unfolding is_write
enforce g tool_name sql = do
  raise_if (any (λ pattern. pattern sql) g.blocked) blocked_by_denylist
  raise_if
      (text_eq g.policy.write_mode_default (codes "deny")
        && is_write sql
        && not (elem tool_name g.policy.allowed_write_tools))
      (blocked_by_policy tool_name)

-- The last two of the parts of a name, or its one part with the default schema.
unfoldable pub qualify : Text → Text → List Text → Text
qualify mode default_schema [] = []
qualify mode default_schema (p ∷ []) =
    if text_eq mode (codes "default_schema_expand") then default_schema ++ b'.' ∷ p else p
qualify mode default_schema (p ∷ q ∷ []) = p ++ b'.' ∷ q
qualify mode default_schema (p ∷ q ∷ r ∷ rest) = qualify mode default_schema (q ∷ r ∷ rest)

-- `[p for p in s.split(".") if p]`
abbrev pub dotted_parts : Text → List Text
dotted_parts s = keep (λ p. not (is_empty p)) (split b'.' s)

-- `_normalize_proc_name`
unfoldable pub normalize_proc_name : Text → Text → Text → Text
unfolding qualify strip keep split
normalize_proc_name name mode default_schema =
    qualify mode default_schema (dotted_parts (without b']' (without b'[' (lower (strip name)))))

-- `s or d`
abbrev pub text_or : Text → Text → Text
text_or s d = if is_empty s then d else s

unfoldable pub match_mode : RuntimePolicy → Text
unfolding strip
match_mode policy =
    let mode =
      lower (strip (text_or policy.procedure_name_match_mode (codes "default_schema_expand"))) in
    if elem mode (codes "strict" ∷ codes "default_schema_expand" ∷ [])
    then mode
    else codes "default_schema_expand"

unfoldable pub default_schema_of : RuntimePolicy → Text
unfolding strip
default_schema_of policy = lower (strip (text_or policy.procedure_default_schema (codes "dbo")))

abbrev pub not_configured : Text → Error
not_configured tool_name =
    permission_error (lit "Procedure execution not configured for tool " ∷ str tool_name ∷ [])

abbrev pub not_allowed : Text → Text → Error
not_allowed proc_name tool_name = permission_error (
    lit "Procedure "
    ∷ str proc_name
    ∷ lit " is not in the allowed procedures list for tool "
    ∷ str tool_name
    ∷ [])

-- `validate_procedure`. Every entry of `allowed_tools` is a dictionary, by its type.
unfoldable pub validate_procedure : WriteGuard → Text → Text → Outcome (Unit {0})
unfolding match_mode default_schema_of normalize_proc_name lookup
validate_procedure g tool_name proc_name = elim (lookup tool_name g.policy.allowed_tools) [
  | none ↦ raise (not_configured tool_name)
  | some tool_config ↦
      let mode = match_mode g.policy in
      let default_schema = default_schema_of g.policy in
      let normalize = λ (p : Text). normalize_proc_name p mode default_schema in
      let allowed_procedures = or_default (lookup (codes "allowed_procedures") tool_config) [] in
      let tool_allowlist = or_default (lookup (codes "allowlist") tool_config) [] in
      raise_if
        (not (elem (normalize proc_name) (map normalize allowed_procedures))
          && not (elem (normalize proc_name) (map normalize tool_allowlist)))
        (not_allowed proc_name tool_name)
]

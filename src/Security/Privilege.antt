-- ===== src/Security/Privilege.antt =====
-- security/privilege_mapper.py: `resolve_group_privilege`.
pub mod Levels
use mcp_sql_server.Common.{
  Bool, List, Outcome, Text, [], elem, false, if◌then◌else◌, is_empty, keep, lit, lower, ltb, map,
  not, ok, raise, split, str, strip, true, type_error, ◌&&◌, ◌==◌, ◌>>=◌, ◌>>◌, ◌||◌, ◌∷◌,
}

-- The value of a group claim: `None`, a `str`, the `str` of each item of a list, set or tuple, or
-- a value of another type, by its type's name.
pub data Claim : Type 0 where
  no_claim : Claim
  one_text : Text → Claim
  items : List Text → Claim
  other_type : Text → Claim

-- A Python `set` as the list of its elements: only membership is asked, and `sorted` orders it.
unfoldable pub to_set : List Text → List Text
to_set [] = []
to_set (x ∷ xs) = let rest = to_set xs in if elem x rest then rest else x ∷ rest

-- `{item.strip().lower() for item in xs if item.strip()}`
unfoldable pub normal_groups : List Text → List Text
unfolding to_set strip keep
normal_groups xs = to_set (map lower (keep (λ s. not (is_empty s)) (map strip xs)))

-- `_normalize_groups`
unfoldable pub normalize_groups : Claim → Outcome (List Text)
unfolding normal_groups split
normalize_groups no_claim = ok []
normalize_groups (one_text raw) = ok (normal_groups (split b',' raw))
normalize_groups (items raw) = ok (normal_groups raw)
normalize_groups (other_type name) =
    raise (type_error (lit "Expected str, list, set, or tuple; got " ∷ str name ∷ []))

-- The order of Python's strings.
unfoldable pub text_leb : Text → Text → Bool
text_leb [] t = true
text_leb (a ∷ s) [] = false
text_leb (a ∷ s) (b ∷ t) = ltb a b || a == b && text_leb s t

unfoldable pub insert_sorted : Text → List Text → List Text
unfolding text_leb
insert_sorted x [] = x ∷ []
insert_sorted x (y ∷ ys) = if text_leb x y then x ∷ y ∷ ys else y ∷ insert_sorted x ys

unfoldable pub sorted : List Text → List Text
unfolding insert_sorted
sorted [] = []
sorted (x ∷ xs) = insert_sorted x (sorted xs)

pub data Level : Type 0 where
  write_level read_level none_level : Level

-- The metadata of the result.
pub record Match : Type 0 where
  pub group_authorization_enabled : Bool
  pub matched_read_groups : List Text
  pub matched_write_groups : List Text

-- `resolve_group_privilege`
unfoldable pub resolve_group_privilege :
    Claim → List Text → List Text → Bool → Outcome (Level × Match)
unfolding normalize_groups sorted elem
resolve_group_privilege principal_groups read_groups write_groups false = ok (
  write_level,
  record {
    group_authorization_enabled = false;
    matched_read_groups = [];
    matched_write_groups = [];
  },
)
resolve_group_privilege principal_groups read_groups write_groups true = do
  principal ← normalize_groups principal_groups
  let read_set = normal_groups read_groups
  let write_set = normal_groups write_groups
  let matched_read = sorted (keep (λ g. elem g read_set) principal)
  let matched_write = sorted (keep (λ g. elem g write_set) principal)
  let privilege =
      if not (is_empty matched_write)
      then write_level
      else if not (is_empty matched_read)
      then read_level
      else none_level
  ok (
    privilege,
    record {
      group_authorization_enabled = true;
      matched_read_groups = matched_read;
      matched_write_groups = matched_write;
    },
  )

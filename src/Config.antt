-- ===== src/Config.antt =====
-- config_loader.py: the overrides of the configuration by environment variables. A setting of the
-- environment counts only if it is not empty. Reading YAML and JSON is a parameter.
pub mod Settings
pub mod Overrides
use mcp_sql_server.Models.{RuntimePolicy}
use mcp_sql_server.Common.{
  Bool, Dict, Error, List, Option, Outcome, Text, [], codes, elem, false, if◌then◌else◌, insert,
  is_digit, is_empty, keep, leb_ℤ, lit, lookup, lower, map, negsuc, none, not, ok, pos, raise,
  raise_if, some, split, str, strip, suc, true, value_error, zero, ℕ, ℤ, ◌*◌, ◌+◌, ◌-◌, ◌==◌, ◌>>=◌,
  ◌>>◌, ◌∷◌,
}
use mathlib.Core.Option

abbrev pub Env : Type 0
Env = Dict Text

-- A JSON value, as far as the loader tells values apart.
mutual
  pub data Json : Type 0 where
    boolean : Bool → Json
    object : Members → Json
    scalar_or_array : Json

  pub data Members : Type 0 where
    no_members : Members
    member : Text → Json → Members → Members

-- `values.get(name)`, where an empty value is no value.
unfoldable pub setting : Env → Text → Option Text
unfolding lookup
setting env name = elim (lookup name env) [
  | none ↦ none
  | some raw ↦ if is_empty raw then none else some raw
]

abbrev pub not_json : Text → Error
not_json name = value_error (str name ∷ lit " must be valid JSON" ∷ [])

abbrev pub not_object : Text → Error
not_object name = value_error (str name ∷ lit " must be a JSON object" ∷ [])

abbrev pub not_bool_entry : Text → Error
not_bool_entry name =
    value_error (str name ∷ lit " entries must map string keys to boolean values" ∷ [])

abbrev pub not_object_entry : Text → Error
not_object_entry name = value_error (str name ∷ lit " must map instance names to JSON objects" ∷ [])

abbrev pub not_nested_entry : Text → Error
not_nested_entry name =
    value_error (str name ∷ lit " nested entries must map tool names to boolean values" ∷ [])

-- The loop over the entries of an object of Booleans.
unfoldable pub bool_entries : Error → Dict Bool → Members → Outcome (Dict Bool)
unfolding insert
bool_entries e parsed no_members = ok parsed
bool_entries e parsed (member key (boolean b) rest) = bool_entries e (insert key b parsed) rest
bool_entries e parsed (member key _ rest) = raise e

-- `_parse_bool_map`, for what `json.loads` gives: `none` where it raises.
unfoldable pub parse_bool_map : Text → Option Json → Outcome (Dict Bool)
unfolding bool_entries
parse_bool_map name none = raise (not_json name)
parse_bool_map name (some (object m)) = bool_entries (not_bool_entry name) [] m
parse_bool_map name (some _) = raise (not_object name)

unfoldable pub nested_entries : Text → Dict (Dict Bool) → Members → Outcome (Dict (Dict Bool))
unfolding bool_entries insert
nested_entries name parsed no_members = ok parsed
nested_entries name parsed (member key (object m) rest) =
    bool_entries (not_nested_entry name) [] m
    >>= (λ inner. nested_entries name (insert key inner parsed) rest)
nested_entries name parsed (member key _ rest) = raise (not_object_entry name)

-- `_parse_nested_bool_map`
unfoldable pub parse_nested_bool_map : Text → Option Json → Outcome (Dict (Dict Bool))
unfolding nested_entries
parse_nested_bool_map name none = raise (not_json name)
parse_nested_bool_map name (some (object m)) = nested_entries name [] m
parse_nested_bool_map name (some _) = raise (not_object name)

-- `if raw: update_data[...] = parse(raw)`: the new value of a field, or the old one.
unfoldable pub overridden : {A : Type 0} → Option Text → (Text → Outcome A) → A → Outcome A
overridden none parse old = ok old
overridden (some raw) parse old = parse raw

abbrev pub tool_flags_name : Text
tool_flags_name = codes "FASTMCP_TOOL_ENABLE_FLAGS_JSON"

abbrev pub instance_flags_name : Text
instance_flags_name = codes "FASTMCP_INSTANCE_TOOL_ENABLE_FLAGS_JSON"

-- `apply_policy_env_overrides`
unfoldable pub apply_policy_env_overrides :
    (Text → Option Json) → RuntimePolicy → Env → Outcome RuntimePolicy
unfolding setting overridden parse_bool_map parse_nested_bool_map
apply_policy_env_overrides json_loads policy env = do
  tools ←
      overridden (setting env tool_flags_name)
        (λ raw. parse_bool_map tool_flags_name (json_loads raw)) policy.tool_enable_flags
  instances ←
      overridden (setting env instance_flags_name)
        (λ raw. parse_nested_bool_map instance_flags_name (json_loads raw))
        policy.instance_tool_enable_flags
  ok (record policy { tool_enable_flags = tools; instance_tool_enable_flags = instances })

-- `_parse_csv_values`
unfoldable pub parse_csv_values : Text → List Text
unfolding keep split strip
parse_csv_values raw = keep (λ s. not (is_empty s)) (map strip (split b',' raw))

-- Decimal digits after the number that they continue; one underscore may stand between two digits.
unfoldable pub digits : ℕ → Text → Option ℕ
digits n [] = some n
digits n (c ∷ []) = if is_digit c then some (n * 10 + (c - b'0')) else none
digits n (c ∷ d ∷ s) =
    let after = digits (n * 10 + (c - b'0')) (d ∷ s) in
    let skipped = digits (n * 10 + (c - b'0')) s in
    if not (is_digit c)
    then none
    else if not (d == b'_')
    then after
    else if is_empty s
    then none
    else skipped

unfoldable pub number : Text → Option ℕ
unfolding digits
number [] = none
number (c ∷ s) = digits 0 (c ∷ s)

abbrev pub negated : ℕ → ℤ
negated n = elim n [ zero ↦ pos 0 | suc k ↦ negsuc k ]

unfoldable pub signed_number : Text → Option ℤ
unfolding number
signed_number [] = none
signed_number (c ∷ s) =
    if c == b'-'
    then Option.map negated (number s)
    else if c == b'+'
    then Option.map pos (number s)
    else Option.map pos (number (c ∷ s))

-- `int(raw)` of a text in ASCII that has fewer than 4300 digits.
unfoldable pub int_of : Text → Option ℤ
unfolding strip signed_number
int_of raw = signed_number (strip raw)

-- `_parse_int_value`
unfoldable pub parse_int_value : Text → Text → Outcome ℤ
unfolding int_of
parse_int_value name raw = elim (int_of raw) [
  | none ↦ raise (value_error (str name ∷ lit " must be an integer" ∷ []))
  | some n ↦ ok n
]

abbrev pub not_positive : Text → Error
not_positive name = value_error (str name ∷ lit " must be a positive integer (> 0)" ∷ [])

-- `_parse_positive_int_value`
unfoldable pub parse_positive_int_value : Text → Text → Outcome ℤ
unfolding parse_int_value
parse_positive_int_value name raw = do
  value ← parse_int_value name raw
  raise_if (leb_ℤ value (pos 0)) (not_positive name)
  ok value

abbrev pub true_words : List Text
true_words = codes "1" ∷ codes "true" ∷ codes "yes" ∷ codes "on" ∷ []

abbrev pub false_words : List Text
false_words = codes "0" ∷ codes "false" ∷ codes "no" ∷ codes "off" ∷ []

-- `_parse_bool_value`
unfoldable pub parse_bool_value : Text → Text → Outcome Bool
unfolding strip elem
parse_bool_value name raw =
    let value = lower (strip raw) in
    if elem value true_words
    then ok true
    else if elem value false_words
    then ok false
    else raise (value_error (str name ∷ lit " must be a boolean" ∷ []))

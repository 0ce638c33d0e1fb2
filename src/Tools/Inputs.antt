-- ===== src/Tools/Inputs.antt =====
-- tools/input_validation.py and tools/security_redaction.py.
pub mod Names
use mcp_sql_server.Common.{
  Bool, Bool-cases, Dict, Error, IsDict, List, Option, Outcome, Text, [], any, ap, arith, codes,
  contains, elem, false, if◌then◌else◌, inl, inr, insert, int, is_empty, lit, lookup, lookup-insert,
  lower, ltb_ℤ, map, none, not, ok, raise_if, refl, some, starts_with, str, strip, strip_idem, sym,
  text_eq_iff, text_of, true, upper, value_error, ℕ, ℤ, ◌++◌, ◌>>=◌, ◌>>◌, ◌||◌, ◌↔◌, ◌∙◌, ◌∷◌, ◌≡◌,
}

abbrev pub database_name_required : Error
database_name_required = value_error (text_of "INVALID_INPUT: database_name is required")

abbrev pub database_name_invalid : Error
database_name_invalid =
    value_error (text_of "INVALID_INPUT: database_name contains invalid characters")

-- The characters that the validators refuse: a semicolon, or two dashes in a row.
unfoldable pub has_separator : Text → Bool
unfolding contains
has_separator value = contains (codes ";") value || contains (codes "--") value

-- `validate_database_name`
unfoldable pub validate_database_name : Text → Outcome Text
unfolding has_separator strip
validate_database_name database_name = do
  let value = strip database_name
  raise_if (is_empty value) database_name_required
  raise_if (has_separator value) database_name_invalid
  ok value

-- `validate_identifier`
unfoldable pub validate_identifier : Text → Text → Outcome Text
unfolding has_separator strip
validate_identifier name field_name = do
  let value = strip name
  raise_if (is_empty value)
      (value_error (lit "INVALID_INPUT: " ∷ str field_name ∷ lit " cannot be blank" ∷ []))
  raise_if (has_separator value) (
      value_error
        (lit "INVALID_INPUT: " ∷ str field_name ∷ lit " contains invalid characters" ∷ []))
  ok value

-- `validate_positive_int`
unfoldable pub validate_positive_int : ℤ → Text → ℤ → ℤ → Outcome ℤ
validate_positive_int value field_name minimum maximum = do
  raise_if (ltb_ℤ value minimum || ltb_ℤ maximum value) (
      value_error (
        lit "INVALID_INPUT: "
        ∷ str field_name
        ∷ lit " must be between "
        ∷ int minimum
        ∷ lit " and "
        ∷ int maximum
        ∷ []))
  ok value

abbrev pub bad_view_mode : Error
bad_view_mode = value_error (text_of "INVALID_INPUT: view_mode must be FULL or COMPACT")

-- `validate_view_mode`
unfoldable pub validate_view_mode : Text → Outcome Text
unfolding strip elem
validate_view_mode value = do
  let normalized = upper (strip value)
  raise_if (not (elem normalized (codes "FULL" ∷ codes "COMPACT" ∷ []))) bad_view_mode
  ok normalized

abbrev pub sensitive_tokens : List Text
sensitive_tokens =
    codes "password" ∷ codes "secret" ∷ codes "token" ∷ codes "connection_string" ∷ codes "pwd" ∷ []

unfoldable pub is_sensitive : Text → Bool
unfolding any contains
is_sensitive key = any (λ token. contains token (lower key)) sensitive_tokens

-- The cells of a row are of any type `V` in which the marker "***REDACTED***" is a value.
module _ {V : Type 0} (marker : V) where
  -- The inner loop, over the dictionary that it fills.
  unfoldable pub clean_row : Dict V → Dict V → Dict V
  unfolding insert is_sensitive
  clean_row cleaned [] = cleaned
  clean_row cleaned ((key, value) ∷ row) =
      clean_row (insert key (if is_sensitive key then marker else value) cleaned) row

  -- `redact_sensitive_fields`
  unfoldable pub redact_sensitive_fields : List (Dict V) → List (Dict V)
  unfolding clean_row
  redact_sensitive_fields rows = map (clean_row []) rows

  abbrev masked : Text → V → V
  masked key value = if is_sensitive key then marker else value

  abbrev pub masked_or : Text → Option V → Option V → Option V
  masked_or key none other = other
  masked_or key (some value) other = some (if is_sensitive key then marker else value)

  lookup-clean_row :
      (key : Text) (cleaned row : Dict V)
      → IsDict row
      → lookup key (clean_row cleaned row) ≡ masked_or key (lookup key row) (lookup key cleaned)
  unfolding clean_row lookup
  lookup-clean_row key cleaned [] h = refl
  lookup-clean_row key cleaned ((j, v) ∷ row) h = ground (
    arith,
    text_eq_iff j key,
    lookup-insert j key (masked j v) cleaned,
    lookup-clean_row key (insert j (masked j v) cleaned) row h.1,
  )

  -- A redacted row has the fields of the row: those whose name, in any mixture of cases, contains
  -- one of the five sensitive words hold the marker, the others what they held.
  redacted_field :
      (key : Text) (row : Dict V)
      → IsDict row
      → lookup key (clean_row [] row) ≡ masked_or key (lookup key row) none
  unfolding lookup
  redacted_field key row h = lookup-clean_row key [] row h

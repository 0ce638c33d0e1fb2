-- ===== src/Tools/Statements/Shapes.antt =====
-- tools/sql_tools.py: the shape of the rows of `top_statements`.
use mcp_sql_server.Common.{
  Bool, List, Option, Outcome, Text, [], any, arith, codes, elem, false, if◌then◌else◌, inl, inr,
  leb, length, length-take-le, ltb, none, ok, pos, raise, refl, some, take, text_eq, true, ℕ, ℤ,
  ◌&&◌, ◌>>=◌, ◌∷◌, ◌≡◌, ◌⊎◌,
}
use mcp_sql_server.Tools.Statements.{
  Cell, Floats, Row, Truncated, each_of, float_value, infinite, int_value, no_value, normal_cell,
  normal_item, normalize_top_statement_rows, not_a_number, numeric_keys, overflow, shortened,
  sql_text_limit, text_value, truncated_or_zero, truncated_to, whole,
}

-- As many results as there were values, each in its relation to the value at its place.
abbrev pub Pointwise : {A B : Type 0} → (A → B → Type 0) → List A → List B → Type 0
Pointwise P [] [] = Unit {0}
Pointwise P [] (y ∷ ys) = ⊥
Pointwise P (x ∷ xs) [] = ⊥
Pointwise P (x ∷ xs) (y ∷ ys) = P x y × Pointwise P xs ys

no_conjunct : (b : Bool) → b && false ≡ false
no_conjunct b = ground arith

cut-le : (n : ℕ) (s : Text) → leb (length (if ltb n (length s) then take n s else s)) n ≡ true
cut-le n s = ground (arith, length-take-le n s)

module _ {F : Type 0} (floats : Floats F) where
  abbrev pub is_whole : Cell F → Bool
  is_whole no_value = true
  is_whole (int_value n) = true
  is_whole (float_value x) = false
  is_whole (text_value s) = false

  abbrev pub is_short : Cell F → Bool
  is_short no_value = true
  is_short (int_value n) = true
  is_short (float_value x) = true
  is_short (text_value s) = leb (length s) sql_text_limit

  -- A number where there should be one, and no longer SQL text than allowed.
  unfoldable pub has_shape : Text → Cell F → Bool
  has_shape key val =
      if elem key numeric_keys
      then is_whole val
      else if text_eq key (codes "query_sql_text")
      then is_short val
      else true

  no_value-shape : (key : Text) → has_shape key no_value ≡ true
  unfolding has_shape
  no_value-shape key = ground arith

  shortened-short : (val : Cell F) → is_short (shortened floats val) ≡ true
  shortened-short no_value = refl
  shortened-short (int_value n) = refl
  shortened-short (float_value x) = refl
  shortened-short (text_value s) = cut-le sql_text_limit s

  abbrev pub is_infinite : Truncated → Bool
  is_infinite (truncated_to n) = false
  is_infinite not_a_number = false
  is_infinite infinite = true

  -- The value has no whole number: it is infinite, or no float can hold it.
  abbrev pub is_out_of_range : Cell F → Bool
  is_out_of_range no_value = false
  is_out_of_range (int_value n) = elim (floats.of_int n) [
    | none ↦ true
    | some x ↦ is_infinite (floats.truncated x)
  ]
  is_out_of_range (float_value x) = is_infinite (floats.truncated x)
  is_out_of_range (text_value s) = elim (floats.parse s) [
    | none ↦ false
    | some x ↦ is_infinite (floats.truncated x)
  ]

  abbrev pub item_overflows : Text × Cell F → Bool
  item_overflows item = elem item.0 numeric_keys && is_out_of_range item.1

  abbrev pub overflows : Row F → Bool
  overflows row = any item_overflows row

  -- What a step comes to: OverflowError where it should, and else a result with a property.
  abbrev pub Unless : {A : Type 0} → Bool → (A → Type 0) → Outcome A → Type 0
  Unless {A} bad P o =
      ((bad ≡ true) × (o ≡ raise overflow)) ⊎ ((bad ≡ false) × ((a : A) × (o ≡ ok a) × P a))

  truncated-Unless :
      (t : Truncated) → Unless (is_infinite t) (λ n. Unit {0}) (truncated_or_zero floats t)
  unfolding truncated_or_zero
  truncated-Unless (truncated_to n) = inr (refl, (n, refl, tt))
  truncated-Unless not_a_number = inr (refl, (pos 0, refl, tt))
  truncated-Unless infinite = inl (refl, refl)

  int-Unless :
      (o : Option F)
      → Unless
          (elim o [ none ↦ true | some x ↦ is_infinite (floats.truncated x) ])
          (λ n. Unit {0})
          (elim o [
            | none ↦ raise overflow
            | some x ↦ truncated_or_zero floats (floats.truncated x)
          ])
  int-Unless none = inl (refl, refl)
  int-Unless (some x) = truncated-Unless (floats.truncated x)

  text-Unless :
      (o : Option F)
      → Unless
          (elim o [ none ↦ false | some x ↦ is_infinite (floats.truncated x) ])
          (λ n. Unit {0})
          (elim o [ none ↦ ok (pos 0) | some x ↦ truncated_or_zero floats (floats.truncated x) ])
  text-Unless none = inr (refl, (pos 0, refl, tt))
  text-Unless (some x) = truncated-Unless (floats.truncated x)

  whole-Unless : (c : Cell F) → Unless (is_out_of_range c) (λ n. Unit {0}) (whole floats c)
  unfolding whole
  whole-Unless no_value = inr (refl, (pos 0, refl, tt))
  whole-Unless (float_value x) = truncated-Unless (floats.truncated x)
  whole-Unless (int_value n) = int-Unless (floats.of_int n)
  whole-Unless (text_value s) = text-Unless (floats.parse s)

  -- The values that are not converted.
  shortened-shape :
      (key : Text) (val : Cell F)
      → elem key numeric_keys ≡ false
      → has_shape key (shortened floats val) ≡ true
  unfolding has_shape
  shortened-shape key no_value h = ground arith
  shortened-shape key (int_value n) h = ground arith
  shortened-shape key (float_value x) h = ground arith
  shortened-shape key (text_value s) h = ground (arith, cut-le sql_text_limit s)

  other_cell-shape :
      (key : Text) (val : Cell F)
      → elem key numeric_keys ≡ false
      → text_eq key (codes "query_sql_text") ≡ false
      → has_shape key val ≡ true
  unfolding has_shape
  other_cell-shape key val h k = ground arith

  -- The key of the item, with a value of the shape that it should have.
  abbrev pub IsShaped : Text × Cell F → Text × Cell F → Type 0
  IsShaped before after = (after.0 ≡ before.0) × (has_shape after.0 after.1 ≡ true)

  int_value-shape : (key : Text) (n : ℤ) → has_shape key (int_value n) ≡ true
  unfolding has_shape
  int_value-shape key n = ground arith

  -- A value that is there, with `converts` for the keys of numbers and `is_sql` for that of the text.
  cell-Unless :
      (key : Text) (val : Cell F) (converts is_sql : Bool)
      → elem key numeric_keys ≡ converts
      → text_eq key (codes "query_sql_text") ≡ is_sql
      → Unless (converts && is_out_of_range val) (IsShaped (key, val)) (
          (if converts
            then whole floats val >>= (λ n. ok (int_value n))
            else if is_sql
            then ok (shortened floats val)
            else ok val)
          >>= (λ cell. ok (key, cell)))
  cell-Unless key val true is_sql h k = elim (whole-Unless val) [
    | inl (bad, e) ↦ inl (bad, rw e refl)
    | inr (good, (n, e, _)) ↦
        inr (good, ((key, int_value n), rw e refl, (refl, int_value-shape key n)))
  ]
  cell-Unless key val false true h k =
      inr (refl, ((key, shortened floats val), refl, (refl, shortened-shape key val h)))
  cell-Unless key val false false h k =
      inr (refl, ((key, val), refl, (refl, other_cell-shape key val h k)))

  item-Unless :
      (item : Text × Cell F)
      → Unless (item_overflows item) (IsShaped item) (normal_item floats item)
  unfolding normal_cell
  item-Unless (key, no_value) =
      inr (no_conjunct (elem key numeric_keys), ((key, no_value), refl, (refl, no_value-shape key)))
  item-Unless (key, int_value n) = cell-Unless key (int_value n) _ _ refl refl
  item-Unless (key, float_value x) = cell-Unless key (float_value x) _ _ refl refl
  item-Unless (key, text_value s) = cell-Unless key (text_value s) _ _ refl refl

  each_of-Unless :
      {A B : Type 0} (bad : A → Bool) (P : A → B → Type 0) (f : A → Outcome B) (xs : List A)
      → ((x : A) → Unless (bad x) (P x) (f x))
      → Unless (any bad xs) (Pointwise P xs) (each_of f xs)
  unfolding each_of any
  each_of-Unless bad P f [] h = inr (refl, ([], refl, tt))
  each_of-Unless bad P f (x ∷ xs) h = elim (h x) [
    | inl (b, e) ↦ inl (rw b refl, rw e refl)
    | inr (good, (y, e, p)) ↦ elim (each_of-Unless bad P f xs h) [
      | inl (b, e') ↦ inl (rw (good, b) refl, rw (e, e') refl)
      | inr (good', (ys, e', ps)) ↦ inr (rw (good, good') refl, (y ∷ ys, rw (e, e') refl, (p, ps)))
    ]
  ]

  -- The normalisation of the rows of top_statements raises exactly where a value that should be
  -- converted is infinite or too large for a float, and then OverflowError. Otherwise it gives a
  -- row for each row, with its keys in their order; each number that it should have is a whole
  -- number or missing, also where the value was no number; and its SQL text has at most 4,000
  -- characters.
  pub rows-IsShaped :
      (rows : List (Row F))
      → Unless
          (any overflows rows)
          (Pointwise (Pointwise IsShaped) rows)
          (normalize_top_statement_rows floats rows)
  unfolding normalize_top_statement_rows
  rows-IsShaped rows =
      each_of-Unless overflows (Pointwise IsShaped) _ rows
        (λ row. each_of-Unless item_overflows IsShaped _ row item-Unless)

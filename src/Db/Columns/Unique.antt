-- ===== src/Db/Columns/Unique.antt =====
-- The names of the columns are found, and they are distinct.
use mcp_sql_server.Db.Columns.Decimal.{next_name-form, next_name-numbered, value-decimal}
use mcp_sql_server.Db.Columns.{
  candidate, column_name, fresh_name, name_columns, normalize_column_names, numbered, value,
}
use mcp_sql_server.Common.{
  Bool, Bool-cases, Dict, List, Option, Text, [], ap, arith, count, elem, false, if◌then◌else◌, inl,
  inr, insert, leb, length, length-append, lookup, none, or_default, refl, some, suc, text_eq,
  text_eq_iff, true, zero, ℕ, ◌++◌, ◌+◌, ◌<◌, ◌==◌, ◌||◌, ◌∙◌, ◌∷◌, ◌≡◌, ◌≤◌,
}

-- The number of a name that is numbered on a base.
unfoldable number_of : Text → Text → Option ℕ
unfolding value
number_of [] [] = none
number_of [] (c ∷ s) = if c == b'_' then some (value 0 s) else none
number_of (b ∷ base) [] = none
number_of (b ∷ base) (c ∷ s) = if b == c then number_of base s else none

number_of-numbered : (base : Text) (n : ℕ) → number_of base (numbered base n) ≡ some n
unfolding number_of
number_of-numbered [] n = ground (arith, value-decimal (suc n) n (omega arith))
number_of-numbered (b ∷ base) n = ground (arith, number_of-numbered base n)

-- The names with at least this number on a base.
at_least : ℕ → Option ℕ → Bool
at_least n none = false
at_least n (some k) = leb n k

later : Text → ℕ → List Text → ℕ
later base n names = count (λ x. at_least n (number_of base x)) names

later-le : (base : Text) (n : ℕ) (names : List Text) → later base (n + 1) names ≤ later base n names
unfolding later count at_least
later-le base n [] = omega arith
later-le base n (x ∷ names) = ground (arith, later-le base n names)

later-lt :
    (base : Text) (n : ℕ) (names : List Text)
    → elem (numbered base n) names ≡ true
    → later base (n + 1) names < later base n names
unfolding later count at_least elem
later-lt base n [] h = cc
later-lt base n (x ∷ names) h = ground (
  arith,
  later-le base n names,
  later-lt base n names,
  number_of-numbered base n,
  text_eq_iff x (numbered base n),
  text_eq_iff (numbered base n) x,
)

later-length : (base : Text) (n : ℕ) (names : List Text) → later base n names ≤ length names
unfolding later count
later-length base n [] = omega arith
later-length base n (x ∷ names) = ground (arith, later-length base n names)

-- A name that is not taken, found within the fuel.
abbrev Untaken : ℕ → List Text → Text → Type 0
Untaken fuel names name =
    (r : Text) × (fresh_name fuel names name ≡ some r) × (elem r names ≡ false)

numbered-Untaken :
    (fuel : ℕ) (names : List Text) (base : Text) (n : ℕ)
    → later base n names < fuel
    → Untaken fuel names (numbered base n)
unfolding fresh_name
numbered-Untaken zero names base n h = absurd (omega arith)
numbered-Untaken (suc fuel) names base n h = elim (Bool-cases (elem (numbered base n) names)) [
  | inr free ↦ (numbered base n, rw free refl, free)
  | inl taken ↦
      let (r, found, free) =
        numbered-Untaken fuel names base (n + 1) (omega (arith, later-lt base n names taken)) in
      (r, rw taken (ap (fresh_name fuel names) (next_name-numbered base n) ∙ found), free)
]

fresh_name-Untaken :
    (names : List Text) (name : Text) → Untaken (suc (suc (length names))) names name
unfolding fresh_name
fresh_name-Untaken names name = elim (Bool-cases (elem name names)) [
  | inr free ↦ (name, rw free refl, free)
  | inl taken ↦
      let (base, n, e) = next_name-form name in
      let (r, found, free) =
        numbered-Untaken (suc (length names)) names base n
          (omega (arith, later-length base n names)) in
      (r, rw taken (ap (fresh_name (suc (length names)) names) e ∙ found), free)
]

-- No name stands twice in the list.
abbrev pub Distinct : List Text → Type 0
Distinct [] = Unit
Distinct (x ∷ xs) = (elem x xs ≡ false) × Distinct xs

elem-append : (x y : Text) (xs : List Text) → elem x (xs ++ y ∷ []) ≡ (elem x xs || text_eq x y)
unfolding elem
elem-append x y [] = ground arith
elem-append x y (z ∷ xs) = ground (arith, elem-append x y xs)

append-Distinct :
    (r : Text) (xs : List Text) → Distinct xs → elem r xs ≡ false → Distinct (xs ++ r ∷ [])
unfolding elem
append-Distinct r [] h k = (refl, tt)
append-Distinct r (x ∷ xs) h k =
    ground (arith, append-Distinct r xs, elem-append x r xs, text_eq_iff x r, text_eq_iff r x)

name_columns-Distinct :
    (idx : ℕ) (seen : Dict ℕ) (normalized : List Text) (raw : List (Option Text))
    → Distinct normalized
    → (names : List Text) × (name_columns idx seen normalized raw ≡ some names)
      × Distinct names
      × (length names ≡ length normalized + length raw)
unfolding name_columns
name_columns-Distinct idx seen normalized [] h = (normalized, refl, h, omega arith)
name_columns-Distinct idx seen normalized (v ∷ raw) h =
    let name = column_name idx v in
    let times = or_default (lookup name seen) 0 + 1 in
    let (r, found, free) = fresh_name-Untaken normalized (candidate name times) in
    let (names, done, distinct, size) =
      name_columns-Distinct (idx + 1) (insert name times seen) (normalized ++ r ∷ []) raw
        (append-Distinct r normalized h free) in
    (
      names,
      rw (found, name_columns) done,
      distinct,
      omega (arith, size, length-append normalized (r ∷ [])),
    )

-- The loop that makes the names of the columns unique always ends, with one name for each column and
-- no two of them the same; so that a row becomes a dictionary without losing a value.
pub columns-Distinct :
    (raw : List (Option Text))
    → (names : List Text) × (normalize_column_names raw ≡ some names)
      × Distinct names
      × (length names ≡ length raw)
unfolding normalize_column_names
columns-Distinct raw =
    let (names, done, distinct, size) = name_columns-Distinct 1 [] [] raw tt in
    (names, done, distinct, omega (arith, size))

-- ===== src/Db/Columns.antt =====
-- db/connection_manager.py: `_normalize_column_names`.
pub mod Decimal
pub mod Unique
use mcp_sql_server.Common.{
  Bool, Dict, List, Option, Text, [], all, codes, elem, if◌then◌else◌, insert, is_digit, is_empty,
  length, lookup, ltb, none, not, or_default, some, strip, suc, zero, ℕ, ◌%◌, ◌&&◌, ◌*◌, ◌++◌, ◌+◌,
  ◌-◌, ◌/◌, ◌==◌, ◌∷◌,
}

-- The decimal digits of a number, on fuel: a number is never less than how many digits it has.
unfoldable pub decimal : ℕ → ℕ → Text
decimal zero n = []
decimal (suc fuel) n =
    let rest = decimal fuel (n / 10) in
    if ltb n 10 then (n + b'0') ∷ [] else rest ++ (n % 10 + b'0') ∷ []

-- `str(n)`
abbrev pub show : ℕ → Text
show n = decimal (suc n) n

-- `int(s)` of a text of digits
unfoldable pub value : ℕ → Text → ℕ
value n [] = n
value n (c ∷ s) = value (n * 10 + (c - b'0')) s

-- `s.isdigit()`, in ASCII
abbrev pub all_digits : Text → Bool
all_digits s = not (is_empty s) && all is_digit s

-- `s.rsplit("_", 1)`, if there is an underscore
unfoldable pub rsplit : Text → Option (Text × Text)
rsplit [] = none
rsplit (c ∷ s) = elim (rsplit s) [
  | some (base, suffix) ↦ some (c ∷ base, suffix)
  | none ↦ if c == b'_' then some ([], s) else none
]

abbrev pub numbered : Text → ℕ → Text
numbered base n = base ++ b'_' ∷ show n

-- The name with the next number, or numbered one where it has no number.
unfoldable pub bumped : Text → Option (Text × Text) → Text
unfolding decimal value all is_digit
bumped name none = name ++ codes "_1"
bumped name (some (base, suffix)) =
    if all_digits suffix then numbered base (value 0 suffix + 1) else name ++ codes "_1"

-- The body of the `while` loop.
unfoldable pub next_name : Text → Text
unfolding bumped rsplit
next_name name = bumped name (rsplit name)

-- The `while` loop, with `none` where the fuel runs out.
unfoldable pub fresh_name : ℕ → List Text → Text → Option Text
unfolding next_name elem
fresh_name zero final_names name = none
fresh_name (suc fuel) final_names name =
    let rest = fresh_name fuel final_names (next_name name) in
    if elem name final_names then rest else some name

-- The name of a column before it is made unique: `col_<idx>` where it has none.
unfoldable pub column_name : ℕ → Option Text → Text
unfolding strip decimal
column_name idx none = codes "col_" ++ show idx
column_name idx (some v) = if is_empty (strip v) then codes "col_" ++ show idx else strip v

unfoldable pub candidate : Text → ℕ → Text
unfolding decimal
candidate name times = if ltb 1 times then numbered name times else name

-- The loop over the columns. The set `final_names` has the names of the list `normalized`; the fuel
-- is one for the first test and one for each of these names, and one more.
unfoldable pub name_columns : ℕ → Dict ℕ → List Text → List (Option Text) → Option (List Text)
unfolding column_name candidate fresh_name insert lookup
name_columns idx seen normalized [] = some normalized
name_columns idx seen normalized (v ∷ vs) =
    let name = column_name idx v in
    let times = or_default (lookup name seen) 0 + 1 in
    elim (fresh_name (suc (suc (length normalized))) normalized (candidate name times)) [
      | none ↦ none
      | some r ↦ name_columns (idx + 1) (insert name times seen) (normalized ++ r ∷ []) vs
    ]

-- `_normalize_column_names`
unfoldable pub normalize_column_names : List (Option Text) → Option (List Text)
unfolding name_columns
normalize_column_names raw_columns = name_columns 1 [] [] raw_columns

-- ===== src/Tools/Statements/Typed.antt =====
-- Rows whose values have the types that the catalogue's queries give them, and the tests of
-- `_recommend_top_statement_actions` on such rows, which raise nothing.
use mcp_sql_server.Common.{
  Bool, Bool-cases, Each, List, Outcome, [], all, false, inl, inr, keep, leb_ℤ, ltb_ℤ, not, ok, pos,
  refl, suc, take, true, zero, ℕ, ◌&&◌, ◌*ℤ◌, ◌==◌, ◌∷◌, ◌≡◌,
}
use mcp_sql_server.Tools.Statements.{
  Cell, Floats, Row, each_of, float_value, get, int_value, keep_where, no_value, text_value,
}
use mcp_sql_server.Tools.Statements.Values.{cell_at_least, cell_is_positive}
use mcp_sql_server.Tools.Statements.Advice.{
  duration_key, execution_key, is_frequent, is_large, is_medium, is_scanned, is_slow, ratio_key,
  row_count_key, sql_key,
}

pub keep_where-total :
    {A : Type 0} (P : A → Type 0) (test : A → Outcome Bool) (p : A → Bool) (xs : List A)
    → ((x : A) → P x → test x ≡ ok (p x))
    → Each P xs
    → keep_where test xs ≡ ok (keep p xs)
unfolding keep_where keep
keep_where-total P test p [] h all = refl
keep_where-total P test p (x ∷ xs) h all = rw (h x all.0, keep_where-total P test p xs h all.1) refl

pub each_of-total :
    {A B : Type 0} (P : A → Type 0) (f : A → Outcome B) (xs : List A)
    → ((x : A) → P x → (y : B) × (f x ≡ ok y))
    → Each P xs
    → (ys : List B) × (each_of f xs ≡ ok ys)
unfolding each_of
each_of-total P f [] h all = ([], refl)
each_of-total P f (x ∷ xs) h all =
    let (y, first) = h x all.0 in
    let (ys, later) = each_of-total P f xs h all.1 in (y ∷ ys, rw (first, later) refl)

pub Each-keep :
    {A : Type 0} (P : A → Type 0) (p : A → Bool) (xs : List A) → Each P xs → Each P (keep p xs)
unfolding keep
Each-keep P p [] all = tt
Each-keep P p (x ∷ xs) all = elim (Bool-cases (p x)) [
  | inl e ↦ rw e (all.0, Each-keep P p xs all.1)
  | inr n ↦ rw n (Each-keep P p xs all.1)
]

pub Each-take : {A : Type 0} (P : A → Type 0) (n : ℕ) (xs : List A) → Each P xs → Each P (take n xs)
Each-take P zero xs all = tt
Each-take P (suc n) [] all = tt
Each-take P (suc n) (x ∷ xs) all = (all.0, Each-take P n xs all.1)

module _ {F : Type 0} (floats : Floats F) where
  -- A number, or nothing.
  abbrev pub is_numeric : Cell F → Bool
  is_numeric no_value = true
  is_numeric (int_value n) = true
  is_numeric (float_value x) = true
  is_numeric (text_value s) = false

  -- A number with a fraction, or nothing.
  abbrev pub is_ratio : Cell F → Bool
  is_ratio no_value = true
  is_ratio (int_value n) = false
  is_ratio (float_value x) = true
  is_ratio (text_value s) = false

  -- A text, or nothing.
  abbrev pub is_textual : Cell F → Bool
  is_textual no_value = true
  is_textual (int_value n) = false
  is_textual (float_value x) = false
  is_textual (text_value s) = true

  abbrev pub IsStatement : Row F → Type 0
  IsStatement r =
      (is_numeric (get floats duration_key r) ≡ true)
      × (is_numeric (get floats execution_key r) ≡ true)
      × (is_textual (get floats sql_key r) ≡ true)

  abbrev pub IsObject : Row F → Type 0
  IsObject r =
      (is_ratio (get floats ratio_key r) ≡ true) × (is_numeric (get floats row_count_key r) ≡ true)

  -- `n` hundredths or more, where nothing counts as 0.
  abbrev pub is_from : ℕ → Cell F → Bool
  is_from n no_value = n == 0
  is_from n (int_value m) = leb_ℤ (pos n) (m *ℤ 100)
  is_from n (float_value x) = floats.at_least x n
  is_from n (text_value s) = false

  abbrev pub is_above_zero : Cell F → Bool
  is_above_zero no_value = false
  is_above_zero (int_value m) = ltb_ℤ (pos 0) m
  is_above_zero (float_value x) = floats.is_positive x
  is_above_zero (text_value s) = false

  -- The five kinds of rows.
  abbrev pub slow : Row F → Bool
  slow r = is_from 500000000 (get floats duration_key r)

  abbrev pub medium : Row F → Bool
  medium r =
      is_from 100000000 (get floats duration_key r)
      && not (is_from 500000000 (get floats duration_key r))

  abbrev pub frequent : Row F → Bool
  frequent r = is_from 1000000 (get floats execution_key r)

  abbrev pub scanned : Row F → Bool
  scanned r = is_from 80 (get floats ratio_key r) && is_above_zero (get floats row_count_key r)

  abbrev pub large : Row F → Bool
  large r = is_from 1000000000 (get floats row_count_key r)

  pub cell_at_least-numeric :
      (n : ℕ) (c : Cell F) → is_numeric c ≡ true → cell_at_least floats n c ≡ ok (is_from n c)
  unfolding cell_at_least
  cell_at_least-numeric n no_value h = refl
  cell_at_least-numeric n (int_value m) h = refl
  cell_at_least-numeric n (float_value x) h = refl
  cell_at_least-numeric n (text_value s) h = cc

  cell_is_positive-numeric :
      (c : Cell F) → is_numeric c ≡ true → cell_is_positive floats c ≡ ok (is_above_zero c)
  unfolding cell_is_positive
  cell_is_positive-numeric no_value h = refl
  cell_is_positive-numeric (int_value m) h = refl
  cell_is_positive-numeric (float_value x) h = refl
  cell_is_positive-numeric (text_value s) h = cc

  pub is_ratio-numeric : (c : Cell F) → is_ratio c ≡ true → is_numeric c ≡ true
  is_ratio-numeric no_value h = refl
  is_ratio-numeric (int_value m) h = refl
  is_ratio-numeric (float_value x) h = refl
  is_ratio-numeric (text_value s) h = h

  pub is_slow-total : (r : Row F) → IsStatement r → is_slow floats r ≡ ok (slow r)
  unfolding is_slow
  is_slow-total r h = cell_at_least-numeric 500000000 (get floats duration_key r) h.0

  pub is_frequent-total : (r : Row F) → IsStatement r → is_frequent floats r ≡ ok (frequent r)
  unfolding is_frequent
  is_frequent-total r h = cell_at_least-numeric 1000000 (get floats execution_key r) h.1

  pub is_large-total : (r : Row F) → IsObject r → is_large floats r ≡ ok (large r)
  unfolding is_large
  is_large-total r h = cell_at_least-numeric 1000000000 (get floats row_count_key r) h.1

  pub is_medium-total : (r : Row F) → IsStatement r → is_medium floats r ≡ ok (medium r)
  unfolding is_medium
  is_medium-total r h =
      let c = get floats duration_key r in
      rw (cell_at_least-numeric 100000000 c h.0) (elim (Bool-cases (is_from 100000000 c)) [
        | inl low ↦ rw (low, cell_at_least-numeric 500000000 c h.0) refl
        | inr less ↦ rw less refl
      ])

  pub is_scanned-total : (r : Row F) → IsObject r → is_scanned floats r ≡ ok (scanned r)
  unfolding is_scanned
  is_scanned-total r h =
      let c = get floats ratio_key r in
      rw (cell_at_least-numeric 80 c (is_ratio-numeric c h.0)) (elim (Bool-cases (is_from 80 c)) [
        | inl high ↦ rw (high, cell_is_positive-numeric (get floats row_count_key r) h.1) refl
        | inr less ↦ rw less refl
      ])

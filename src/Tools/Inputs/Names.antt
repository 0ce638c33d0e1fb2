-- ===== src/Tools/Inputs/Names.antt =====
-- tools/input_validation.py: which database names pass.
use mcp_sql_server.Common.{
  Bool, Bool-cases, Error, Text, [], ap, arith, contains, false, inl, inr, is_empty, ok, raise_if,
  refl, starts_with, strip, strip_idem, sym, true, ℕ, ◌++◌, ◌>>◌, ◌↔◌, ◌∙◌, ◌∷◌, ◌≡◌,
}
use mcp_sql_server.Tools.Inputs.{
  database_name_invalid, database_name_required, has_separator, validate_database_name,
}

ok-if :
    (s : Text) (a b : Bool) (e f : Error) (v : Text)
    → (raise_if a e >> (raise_if b f >> ok s)) ≡ ok v
    → (a ≡ false) × (b ≡ false) × (s ≡ v)
ok-if s a b e f v h = ground arith

-- `p` stands somewhere in `s`.
abbrev pub Within : Text → Text → Type 0
Within p s = (before : Text) × (after : Text) × (s ≡ before ++ (p ++ after))

starts_with-rest : (p s : Text) → starts_with p s ≡ true → (after : Text) × (s ≡ p ++ after)
unfolding starts_with
starts_with-rest [] s h = (s, refl)
starts_with-rest (x ∷ p) [] h = cc
starts_with-rest (x ∷ p) (c ∷ s) h =
    let (after, e) = starts_with-rest p s (ground arith) in
    let same : x ≡ c = ground arith in (after, ap (◌∷◌ c) e ∙ ap (λ y. y ∷ p ++ after) (sym same))

starts_with-append : (p after : Text) → starts_with p (p ++ after) ≡ true
unfolding starts_with
starts_with-append [] after = refl
starts_with-append (x ∷ p) after = ground (arith, starts_with-append p after)

contains-Within : (x : ℕ) (p s : Text) → contains (x ∷ p) s ≡ true → Within (x ∷ p) s
unfolding contains
contains-Within x p [] h = cc
contains-Within x p (c ∷ s) h = elim (Bool-cases (starts_with (x ∷ p) (c ∷ s))) [
  | inl here ↦ let (after, e) = starts_with-rest (x ∷ p) (c ∷ s) here in ([], after, e)
  | inr later ↦
      let (before, after, e) = contains-Within x p s (ground arith) in
      (c ∷ before, after, ap (◌∷◌ c) e)
]

Within-contains :
    (x : ℕ) (p before after : Text) → contains (x ∷ p) (before ++ ((x ∷ p) ++ after)) ≡ true
unfolding contains
Within-contains x p [] after = ground (arith, starts_with-append (x ∷ p) after)
Within-contains x p (c ∷ before) after = ground (arith, Within-contains x p before after)

-- No semicolon, and no two dashes in a row.
abbrev pub IsClean : Text → Type 0
IsClean v = (¬ Within (b';' ∷ []) v) × (¬ Within (b'-' ∷ b'-' ∷ []) v)

has_separator-IsClean : (v : Text) → (has_separator v ≡ false) ↔ IsClean v
unfolding has_separator
has_separator-IsClean v = (
  λ h. (
    λ (before, after, e).
        let there = Within-contains b';' [] before after in absurd (ground (arith, e, there)),
    λ (before, after, e).
        let there = Within-contains b'-' (b'-' ∷ []) before after in
        absurd (ground (arith, e, there)),
  ),
  λ (semicolon, dashes). elim (Bool-cases (contains (b';' ∷ []) v)) [
    | inl found ↦ absurd (semicolon (contains-Within b';' [] v found))
    | inr clear ↦ elim (Bool-cases (contains (b'-' ∷ b'-' ∷ []) v)) [
      | inl found ↦ absurd (dashes (contains-Within b'-' (b'-' ∷ []) v found))
      | inr clear' ↦ ground arith
    ]
  ],
)

name_passes :
    (s v : Text)
    → (validate_database_name s ≡ ok v)
      ↔ ((is_empty v ≡ false) × (has_separator v ≡ false) × (strip s ≡ v))
unfolding validate_database_name
name_passes s v = (
  (λ h.
      let (a, b, e) =
        ok-if (strip s) (is_empty (strip s)) (has_separator (strip s)) database_name_required
          database_name_invalid v h in
      (rw (← e) a, rw (← e) b, e)),
  (λ h. rw (h.2, h.0, h.1)),
)

-- A database name passes exactly if, without the white space around it, it is not empty and has
-- neither a semicolon nor two dashes in a row anywhere; the result is the name without that white
-- space. A result passes again, unchanged.
pub database_name_exact :
    (s v : Text)
    → ((validate_database_name s ≡ ok v) ↔ ((¬ (v ≡ [])) × IsClean v × (strip s ≡ v)))
      × (validate_database_name s ≡ ok v → validate_database_name v ≡ ok v)
database_name_exact s v =
    let (there, back) = name_passes s v in
    (
      (
        λ h.
            let (shown, clean, e) = there h in
            (λ empty. absurd (ground (arith, empty, shown)), (has_separator-IsClean v).0 clean, e),
        λ (full, clean, e). back (not_empty v full, (has_separator-IsClean v).1 clean, e),
      ),
      λ h.
          let (shown, clean, e) = there h in
          (name_passes v v).1 (shown, clean, ap strip (sym e) ∙ strip_idem s ∙ e),
    )
  where
    not_empty : (v : Text) → ¬ (v ≡ []) → is_empty v ≡ false
    not_empty [] h = absurd (h refl)
    not_empty (c ∷ v) h = refl

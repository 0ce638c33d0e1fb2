-- ===== src/Db/Columns/Decimal.antt =====
-- Decimal numbers, and names that end in one.
use mcp_sql_server.Db.Columns.{
  all_digits, bumped, decimal, next_name, numbered, rsplit, show, value,
}
use mcp_sql_server.Common.{
  Bool, Bool-cases, Option, Text, [], all, ap, arith, codes, false, inl, inr, is_digit, is_empty,
  ltb, none, refl, some, suc, sym, true, zero, ℕ, ◌%◌, ◌*◌, ◌++◌, ◌+◌, ◌-◌, ◌/◌, ◌<◌, ◌∙◌, ◌∷◌, ◌≡◌,
}

all-append : (p : ℕ → Bool) (s t : Text) → all p s ≡ true → all p t ≡ true → all p (s ++ t) ≡ true
unfolding all
all-append p [] t h k = k
all-append p (c ∷ s) t h k = ground (arith, all-append p s t)

digit-one : (n : ℕ) → n < 10 → all is_digit ((n + b'0') ∷ []) ≡ true
unfolding all is_digit
digit-one n h = ground arith

decimal-digits : (fuel n : ℕ) → all is_digit (decimal fuel n) ≡ true
unfolding decimal all
decimal-digits zero n = refl
decimal-digits (suc fuel) n = elim (Bool-cases (ltb n 10)) [
  | inl small ↦ rw small (digit-one n (ground arith))
  | inr large ↦ rw large (
      all-append is_digit (decimal fuel (n / 10)) ((n % 10 + b'0') ∷ [])
        (decimal-digits fuel (n / 10)) (digit-one (n % 10) (omega arith)))
]

append-not_empty : (s : Text) (c : ℕ) → is_empty (s ++ c ∷ []) ≡ false
append-not_empty [] c = refl
append-not_empty (d ∷ s) c = refl

show-digits : (n : ℕ) → all_digits (show n) ≡ true
unfolding decimal
show-digits n =
    ground (arith, decimal-digits (suc n) n, append-not_empty (decimal n (n / 10)) (n % 10 + b'0'))

value-append : (n : ℕ) (s : Text) (c : ℕ) → value n (s ++ c ∷ []) ≡ value n s * 10 + (c - b'0')
unfolding value
value-append n [] c = refl
value-append n (d ∷ s) c = value-append (n * 10 + (d - b'0')) s c

pub value-decimal : (fuel n : ℕ) → n < fuel → value 0 (decimal fuel n) ≡ n
unfolding decimal value
value-decimal zero n h = absurd (omega arith)
value-decimal (suc fuel) n h =
    ground
      (arith, value-append 0 (decimal fuel (n / 10)) (n % 10 + b'0'), value-decimal fuel (n / 10))

rsplit-none : (s : Text) → all is_digit s ≡ true → rsplit s ≡ none
unfolding rsplit all is_digit
rsplit-none [] h = refl
rsplit-none (c ∷ s) h = ground (arith, rsplit-none s)

rsplit-append :
    (base suffix : Text)
    → rsplit suffix ≡ none
    → rsplit (base ++ b'_' ∷ suffix) ≡ some (base, suffix)
unfolding rsplit
rsplit-append [] suffix h = rw h refl
rsplit-append (c ∷ base) suffix h = rw (rsplit-append base suffix h) refl

next_name-digits :
    (s base suffix : Text)
    → rsplit s ≡ some (base, suffix)
    → all_digits suffix ≡ true
    → next_name s ≡ numbered base (value 0 suffix + 1)
unfolding next_name bumped
next_name-digits s base suffix split_at digits = ap (bumped s) split_at ∙ ground (arith, digits)

show-one : show 1 ≡ codes "1"
unfolding decimal
show-one = refl

-- A numbered name is followed by the one with the next number.
pub next_name-numbered : (base : Text) (n : ℕ) → next_name (numbered base n) ≡ numbered base (n + 1)
next_name-numbered base n =
    next_name-digits (numbered base n) base (show n)
      (rsplit-append base (show n) (rsplit-none (show n) (decimal-digits (suc n) n)))
      (show-digits n)
    ∙ ap (λ (m : ℕ). numbered base (m + 1)) (value-decimal (suc n) n (omega arith))

bumped-form :
    (s : Text) (o : Option (Text × Text)) → (base : Text) × (n : ℕ) × (bumped s o ≡ numbered base n)
unfolding bumped
bumped-form s none = (s, 1, ap (λ (t : Text). s ++ b'_' ∷ t) (sym show-one))
bumped-form s (some (base, suffix)) = elim (Bool-cases (all_digits suffix)) [
  | inl digits ↦ (base, value 0 suffix + 1, ground (arith, digits))
  | inr others ↦ (s, 1, ground (arith, others, show-one))
]

-- The name after any name is a numbered one.
pub next_name-form : (s : Text) → (base : Text) × (n : ℕ) × (next_name s ≡ numbered base n)
unfolding next_name
next_name-form s = bumped-form s (rsplit s)

-- ===== src/Common/Outcomes.antt =====
-- Exceptions as values. A message keeps the parts of the source's f-string.
use Prim.Native.Nat.{ℕ}
use Prim.Native.String.{String}
use mathlib.Core.Path.{◌≡◌, refl}
use mathlib.Core.Logic.{◌⊎◌, inl, inr}
use mathlib.Core.Bool.{Bool, true, false}
use mathlib.Core.List.{List, [], ◌∷◌}
use mcp_sql_server.Common.Int.{ℤ}
use mcp_sql_server.Common.Texts.{Text}

pub data Piece : Type 0 where
  lit : String → Piece
  str : Text → Piece
  int : ℤ → Piece

abbrev pub Message : Type 0
Message = List Piece

-- `database_error` holds the `args` of an exception of the database driver, `other_error` the name
-- of any other class.
pub data Error : Type 0 where
  permission_error : Message → Error
  value_error : Message → Error
  type_error : Message → Error
  timeout_error : Message → Error
  runtime_error : Message → Error
  http_exception : ℕ → Message → Error
  database_error : List Text → Error
  other_error : Text → Message → Error

pub data Outcome {ℓ} (A : Type ℓ) : Type ℓ where
  ok : A → Outcome A
  raise : Error → Outcome A

infixl 5 ◌>>=◌ ◌>>◌
-- What follows a call: it runs only if the call returned.
abbrev pub ◌>>=◌ {ℓ κ} :
    {A : Type ℓ} → {B : Type κ} → (first : Outcome A) → (after : A → Outcome B) → Outcome B
raise error >>= after = raise error
ok result >>= after = after result

abbrev pub ◌>>◌ {κ} : {B : Type κ} → (first : Outcome (Unit {0})) → (after : Outcome B) → Outcome B
raise error >> after = raise error
ok _ >> after = after

-- A step that may raise, and what follows if it does not.
abbrev pub and_then : {S A B : Type 0} → Outcome A × S → (A → S → Outcome B × S) → Outcome B × S
and_then (ok a, s) k = k a s
and_then (raise e, s) k = (raise e, s)

-- What holds after the first step holds at the end, or leads to it.
pub and_then-leads :
    {S A B : Type 0} (Q P : S → Type 0) (first : Outcome A × S) (after : A → S → Outcome B × S)
    → ((s : S) → Q s → P s)
    → Q first.1
    → ((a : A) (s : S) → Q s → P (after a s).1)
    → P (and_then first after).1
and_then-leads Q P (ok a, s) after weaker h k = k a s h
and_then-leads Q P (raise e, s) after weaker h k = weaker s h

pub and_then-keeps :
    {S A B : Type 0} (P : S → Type 0) (first : Outcome A × S) (after : A → S → Outcome B × S)
    → P first.1
    → ((a : A) (s : S) → P s → P (after a s).1)
    → P (and_then first after).1
and_then-keeps P first after = and_then-leads P P first after (λ s h. h)

-- `if b: raise e`
abbrev pub raise_if : Bool → Error → Outcome (Unit {0})
raise_if true e = raise e
raise_if false e = ok tt

abbrev pub text_of : String → Message
text_of s = lit s ∷ []

pub >>=-returns {ℓ κ} :
    {A : Type ℓ}
    → {B : Type κ} → (first : Outcome A) (after : A → Outcome B) {result : B}
    → first >>= after ≡ ok result
    → (a : A) × (first ≡ ok a) × (after a ≡ ok result)
>>=-returns (raise error) after h = cc
>>=-returns (ok a) after h = (a, refl, h)

pub >>-returns {κ} :
    {B : Type κ} (first : Outcome (Unit {0})) (after : Outcome B) {result : B}
    → first >> after ≡ ok result
    → (first ≡ ok tt) × (after ≡ ok result)
>>-returns (raise error) after h = cc
>>-returns (ok _) after h = (refl, h)

pub Outcome-cases {ℓ} :
    {A : Type ℓ} (o : Outcome A) → ((a : A) × (o ≡ ok a)) ⊎ ((e : Error) × (o ≡ raise e))
Outcome-cases (ok a) = inl (a, refl)
Outcome-cases (raise e) = inr (e, refl)

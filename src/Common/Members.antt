-- ===== src/Common/Members.antt =====
-- Membership in lists that are built by `++`, `keep` and `map`, and the test for it.
use mathlib.Core.Path.{◌≡◌, refl, sym, ap}
use mathlib.Core.Logic.{◌⊎◌, inl, inr}
use mathlib.Core.Bool.{Bool, true, false}
use mathlib.Core.List.{List, [], ◌∷◌, ◌++◌, map}
use native.Mathlib.Omega.{arith}
use mcp_sql_server.Common.Tests.{Bool-cases}
use mcp_sql_server.Common.Lists.{In, keep, is_empty}
use mcp_sql_server.Common.Texts.{Text, elem, text_eq, text_eq_sound, text_eq_iff}

module _ {A : Type 0} where
  pub In-append_left : (x : A) (xs ys : List A) → In x xs → In x (xs ++ ys)
  In-append_left x [] ys m = absurd m
  In-append_left x (y ∷ xs) ys (inl e) = inl e
  In-append_left x (y ∷ xs) ys (inr m) = inr (In-append_left x xs ys m)

  pub In-append_right : (x : A) (xs ys : List A) → In x ys → In x (xs ++ ys)
  In-append_right x [] ys m = m
  In-append_right x (y ∷ xs) ys m = inr (In-append_right x xs ys m)

  pub In-append : (x : A) (xs ys : List A) → In x (xs ++ ys) → In x xs ⊎ In x ys
  In-append x [] ys m = inr m
  In-append x (y ∷ xs) ys (inl e) = inl (inl e)
  In-append x (y ∷ xs) ys (inr m) = elim (In-append x xs ys m) [
    | inl l ↦ inl (inr l)
    | inr r ↦ inr r
  ]

  pub In-keep : (p : A → Bool) (x : A) (xs : List A) → In x (keep p xs) → In x xs × (p x ≡ true)
  unfolding keep
  In-keep p x [] m = absurd m
  In-keep p x (y ∷ xs) m = elim (Bool-cases (p y)) [
    | inl good ↦ elim (rw good at m) [
      | inl e ↦ (inl e, rw (← e) good)
      | inr later ↦ let (there, test) = In-keep p x xs later in (inr there, test)
    ]
    | inr bad ↦ let (there, test) = In-keep p x xs (rw bad at m) in (inr there, test)
  ]

  pub keep-In : (p : A → Bool) (x : A) (xs : List A) → In x xs → p x ≡ true → In x (keep p xs)
  unfolding keep
  keep-In p x [] m h = absurd m
  keep-In p x (y ∷ xs) (inl e) h = let good : p y ≡ true = rw e h in rw good (inl e)
  keep-In p x (y ∷ xs) (inr m) h = elim (Bool-cases (p y)) [
    | inl good ↦ rw good (inr (keep-In p x xs m h))
    | inr bad ↦ rw bad (keep-In p x xs m h)
  ]

  pub nonempty_In : (xs : List A) → is_empty xs ≡ false → (x : A) × In x xs
  nonempty_In [] h = absurd (ground arith)
  nonempty_In (x ∷ xs) h = (x, inl refl)

  pub In-nonempty : (x : A) (xs : List A) → In x xs → is_empty xs ≡ false
  In-nonempty x [] m = absurd m
  In-nonempty x (y ∷ xs) m = refl

module _ {A B : Type 0} where
  pub In-map : (f : A → B) (b : B) (xs : List A) → In b (map f xs) → (x : A) × In x xs × (f x ≡ b)
  In-map f b [] m = absurd m
  In-map f b (x ∷ xs) (inl e) = (x, inl refl, e)
  In-map f b (x ∷ xs) (inr m) = let (y, there, e) = In-map f b xs m in (y, inr there, e)

  pub map-In : (f : A → B) (x : A) (xs : List A) → In x xs → In (f x) (map f xs)
  map-In f x [] m = absurd m
  map-In f x (y ∷ xs) (inl e) = inl (ap f e)
  map-In f x (y ∷ xs) (inr m) = inr (map-In f x xs m)

pub elem_sound : (g : Text) (xs : List Text) → elem g xs ≡ true → In g xs
unfolding elem
elem_sound g [] h = cc
elem_sound g (x ∷ xs) h = elim (Bool-cases (text_eq g x)) [
  | inl e ↦ inl (sym (text_eq_sound g x e))
  | inr n ↦ inr (elem_sound g xs (rw n at h))
]

pub elem_complete : (g : Text) (xs : List Text) → In g xs → elem g xs ≡ true
unfolding elem
elem_complete g [] m = absurd m
elem_complete g (x ∷ xs) (inl e) = ground (arith, (text_eq_iff g x).1 (sym e))
elem_complete g (x ∷ xs) (inr m) = ground (arith, elem_complete g xs m)

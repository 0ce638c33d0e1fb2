-- ===== src/Common/Dicts.antt =====
-- Python's `dict` with text keys: an association list in insertion order, its keys distinct.
use mathlib.Core.Path.{◌≡◌, refl}
use mathlib.Core.Bool.{Bool, true, false}
use mathlib.Core.List.{List, [], ◌∷◌}
use mathlib.Core.Option.{Option, none, some}
use native.Mathlib.Omega.{arith}
use mcp_sql_server.Common.Tests.{if◌then◌else◌}
use mcp_sql_server.Common.Texts.{Text, text_eq, text_eq_iff}

abbrev pub Dict {ℓ} : Type ℓ → Type ℓ
Dict V = List (Text × V)

module _ {ℓ} {V : Type ℓ} where
  -- `d.get(k)`
  unfoldable pub lookup : Text → Dict V → Option V
  lookup k [] = none
  lookup k ((j, v) ∷ d) = if text_eq j k then some v else lookup k d

  abbrev pub is_some : Option V → Bool
  is_some none = false
  is_some (some v) = true

  abbrev pub or_default : Option V → V → V
  or_default none d = d
  or_default (some v) d = v

  -- `k in d`
  abbrev pub has_key : Text → Dict V → Bool
  has_key k d = is_some (lookup k d)

  -- `d[k] = v`: in place if the key is there, at the end otherwise
  unfoldable pub insert : Text → V → Dict V → Dict V
  insert k v [] = (k, v) ∷ []
  insert k v ((j, w) ∷ d) = if text_eq j k then (j, v) ∷ d else (j, w) ∷ insert k v d

  -- `del d[k]`
  unfoldable pub delete : Text → Dict V → Dict V
  delete k [] = []
  delete k ((j, w) ∷ d) = if text_eq j k then delete k d else (j, w) ∷ delete k d

  pub lookup-insert :
      (k j : Text) (v : V) (d : Dict V)
      → lookup j (insert k v d) ≡ (if text_eq k j then some v else lookup j d)
  unfolding lookup insert
  lookup-insert k j v [] = refl
  lookup-insert k j v ((i, w) ∷ d) =
      ground (arith, text_eq_iff k j, text_eq_iff i k, text_eq_iff i j, lookup-insert k j v d)

  pub lookup-delete :
      (k j : Text) (d : Dict V) → lookup j (delete k d) ≡ (if text_eq k j then none else lookup j d)
  unfolding lookup delete
  lookup-delete k j [] = ground arith
  lookup-delete k j ((i, w) ∷ d) =
      ground (arith, text_eq_iff k j, text_eq_iff i k, text_eq_iff i j, lookup-delete k j d)

abbrev pub keys {ℓ} : {V : Type ℓ} → Dict V → List Text
keys [] = []
keys ((k, _) ∷ d) = k ∷ keys d

module _ {ℓ} {V : Type ℓ} where
  -- The keys are distinct.
  abbrev pub IsDict : Dict V → Type ℓ
  IsDict [] = Unit
  IsDict ((k, v) ∷ d) = (lookup k d ≡ none) × IsDict d

  -- `{k: v for k, v in d.items() if p(k, v)}`
  unfoldable pub keep_items : (Text → V → Bool) → Dict V → Dict V
  keep_items p [] = []
  keep_items p ((k, v) ∷ d) = if p k v then (k, v) ∷ keep_items p d else keep_items p d

  abbrev pub kept : (Text → V → Bool) → Text → Option V → Option V
  kept p k none = none
  kept p k (some v) = if p k v then some v else none

  pub insert-IsDict : (k : Text) (v : V) (d : Dict V) → IsDict d → IsDict (insert k v d)
  unfolding lookup insert
  insert-IsDict k v [] h = (refl, tt)
  insert-IsDict k v ((j, w) ∷ d) h =
      ground (arith, text_eq_iff j k, text_eq_iff k j, lookup-insert k j v d, insert-IsDict k v d)

  keep_items_missing :
      (p : Text → V → Bool) (k : Text) (d : Dict V)
      → lookup k d ≡ none
      → lookup k (keep_items p d) ≡ none
  unfolding lookup keep_items
  keep_items_missing p k [] h = refl
  keep_items_missing p k ((j, w) ∷ d) h = ground (arith, keep_items_missing p k d)

  pub lookup-keep_items :
      (p : Text → V → Bool) (k : Text) (d : Dict V)
      → IsDict d
      → lookup k (keep_items p d) ≡ kept p k (lookup k d)
  unfolding lookup keep_items
  lookup-keep_items p k [] h = refl
  lookup-keep_items p k ((j, w) ∷ d) h =
      ground (arith, text_eq_iff j k, lookup-keep_items p k d, keep_items_missing p k d)

  pub keep_items-IsDict : (p : Text → V → Bool) (d : Dict V) → IsDict d → IsDict (keep_items p d)
  unfolding keep_items
  keep_items-IsDict p [] h = tt
  keep_items-IsDict p ((j, w) ∷ d) h =
      ground (arith, keep_items-IsDict p d, keep_items_missing p j d)

  pub keep_items_idem :
      (p : Text → V → Bool) (d : Dict V) → keep_items p (keep_items p d) ≡ keep_items p d
  unfolding keep_items
  keep_items_idem p [] = refl
  keep_items_idem p ((j, w) ∷ d) = ground (arith, keep_items_idem p d)

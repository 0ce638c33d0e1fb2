-- ===== src/Middleware/WriteGuard/Procedures.antt =====
-- Which procedures `validate_procedure` lets pass.
use mcp_sql_server.Common.{
  Bool-cases, Dict, In, List, Option-cases, Text, [], ap, arith, codes, elem, inl, inr, lookup, map,
  ok, or_default, refl, some, sym, text_eq, text_eq_iff, text_eq_sound, true, ◌++◌, ◌↔◌, ◌∙◌, ◌∷◌,
  ◌≡◌, ◌⊎◌,
}
use mcp_sql_server.Middleware.WriteGuard.{
  WriteGuard, default_schema_of, match_mode, normalize_proc_name, validate_procedure,
}

-- The normal form of a procedure name under a policy.
abbrev pub normal_form : WriteGuard → Text → Text
normal_form g p = normalize_proc_name p (match_mode g.policy) (default_schema_of g.policy)

-- The names that a tool's configuration lists.
abbrev pub listed_names : Dict (List Text) → List Text
listed_names tool_config =
    or_default (lookup (codes "allowed_procedures") tool_config) []
    ++ or_default (lookup (codes "allowlist") tool_config) []

elem-map_sound :
    (f : Text → Text) (v : Text) (xs : List Text)
    → elem v (map f xs) ≡ true
    → (x : Text) × In x xs × (f x ≡ v)
unfolding elem
elem-map_sound f v [] h = cc
elem-map_sound f v (x ∷ xs) h = elim (Bool-cases (text_eq v (f x))) [
  | inl e ↦ (x, inl refl, sym (text_eq_sound v (f x) e))
  | inr n ↦ let (y, there, same) = elem-map_sound f v xs (rw n at h) in (y, inr there, same)
]

elem-map_complete :
    (f : Text → Text) (v x : Text) (xs : List Text) → In x xs → f x ≡ v → elem v (map f xs) ≡ true
unfolding elem
elem-map_complete f v x [] m e = absurd m
elem-map_complete f v x (y ∷ xs) (inl here) e =
    ground (arith, (text_eq_iff v (f y)).1 (sym e ∙ ap f (sym here)))
elem-map_complete f v x (y ∷ xs) (inr there) e = ground (arith, elem-map_complete f v x xs there e)

In-append_left : (x : Text) (xs ys : List Text) → In x xs → In x (xs ++ ys)
In-append_left x [] ys m = absurd m
In-append_left x (y ∷ xs) ys (inl e) = inl e
In-append_left x (y ∷ xs) ys (inr m) = inr (In-append_left x xs ys m)

In-append_right : (x : Text) (xs ys : List Text) → In x ys → In x (xs ++ ys)
In-append_right x [] ys m = m
In-append_right x (y ∷ xs) ys m = inr (In-append_right x xs ys m)

In-append : (x : Text) (xs ys : List Text) → In x (xs ++ ys) → In x xs ⊎ In x ys
In-append x [] ys m = inr m
In-append x (y ∷ xs) ys (inl e) = inl (inl e)
In-append x (y ∷ xs) ys (inr m) = elim (In-append x xs ys m) [ inl l ↦ inl (inr l) | inr r ↦ inr r ]

-- The procedure passes: the tool is configured, and its lists hold a name of the same normal form.
abbrev pub IsListed : WriteGuard → Text → Text → Type 0
IsListed g tool_name proc_name =
    (tool_config : Dict (List Text)) × (lookup tool_name g.policy.allowed_tools ≡ some tool_config)
    × ((p : Text) × In p (listed_names tool_config) × (normal_form g p ≡ normal_form g proc_name))

passes-IsListed :
    (g : WriteGuard) (tool_name proc_name : Text)
    → validate_procedure g tool_name proc_name ≡ ok tt
    → IsListed g tool_name proc_name
unfolding validate_procedure
passes-IsListed g tool_name proc_name h =
    elim (Option-cases (lookup tool_name g.policy.allowed_tools)) [
      | inl missing ↦ absurd (ground arith)
      | inr (config, found) ↦ (config, found, either config found)
    ]
  where
    f : Text → Text
    f = normal_form g

    either :
        (config : Dict (List Text))
        → lookup tool_name g.policy.allowed_tools ≡ some config
        → (p : Text) × In p (listed_names config) × (f p ≡ f proc_name)
    either config found =
        let procs = or_default (lookup (codes "allowed_procedures") config) [] in
        let extra = or_default (lookup (codes "allowlist") config) [] in
        elim (Bool-cases (elem (f proc_name) (map f procs))) [
          | inl e ↦
              let (p, there, same) = elem-map_sound f (f proc_name) procs e in
              (p, In-append_left p procs extra there, same)
          | inr n ↦ elim (Bool-cases (elem (f proc_name) (map f extra))) [
            | inl e ↦
                let (p, there, same) = elem-map_sound f (f proc_name) extra e in
                (p, In-append_right p procs extra there, same)
            | inr m ↦ absurd (ground arith)
          ]
        ]

IsListed-passes :
    (g : WriteGuard) (tool_name proc_name : Text)
    → IsListed g tool_name proc_name
    → validate_procedure g tool_name proc_name ≡ ok tt
unfolding validate_procedure
IsListed-passes g tool_name proc_name (config, found, (p, there, same)) =
    let f = normal_form g in
    let procs = or_default (lookup (codes "allowed_procedures") config) [] in
    let extra = or_default (lookup (codes "allowlist") config) [] in
    elim (In-append p procs extra there) [
      | inl l ↦ ground (arith, elem-map_complete f (f proc_name) p procs l same)
      | inr r ↦ ground (arith, elem-map_complete f (f proc_name) p extra r same)
    ]

-- `validate_procedure` lets a procedure pass exactly when the tool stands in `allowed_tools` and one
-- of its two lists holds a name with the same normal form. With no entry, or with empty lists,
-- nothing passes.
pub validate_exact :
    (g : WriteGuard) (tool_name proc_name : Text)
    → (validate_procedure g tool_name proc_name ≡ ok tt) ↔ IsListed g tool_name proc_name
validate_exact g tool_name proc_name =
    (passes-IsListed g tool_name proc_name, IsListed-passes g tool_name proc_name)

-- ===== src/Tools/Reports/Counts.antt =====
-- The counts of a report are those of its findings.
use mcp_sql_server.Tools.Reports.{
  Finding, Recommendation, build_report_envelope, count_severities, counted_as,
  dba_review_disclaimer, valid_severities, zero_counts,
}
use mcp_sql_server.Common.{
  Bool, Bool-cases, Dict, List, Text, [], ap, arith, codes, count, elem, has_key, if◌then◌else◌,
  inl, inr, insert, is_empty, is_some, lookup, lookup-insert, map, none, not, or_default, refl,
  some, sym, text_eq, text_eq_iff, text_eq_sound, true, ℕ, ◌+◌, ◌∙◌, ◌∷◌, ◌≡◌,
}

abbrev pub severity_class : Text → Text
severity_class severity = if elem severity valid_severities then severity else codes "info"

-- The findings that fall under a name: those of that severity, and under `info` also those of a
-- severity that is none of the five.
abbrev pub falls_under : {E : Type 0} → Text → Finding E → Bool
falls_under name f = text_eq (severity_class f.severity) name

-- A table with an entry for exactly the five.
abbrev IsTable : Dict ℕ → Type 0
IsTable counts = (k : Text) → has_key k counts ≡ elem k valid_severities

severity_class-valid : (s : Text) → elem (severity_class s) valid_severities ≡ true
unfolding elem text_eq
severity_class-valid s = elim (Bool-cases (elem s valid_severities)) [
  | inl e ↦ rw e e
  | inr n ↦ rw n refl
]

insert-IsTable :
    (k : Text) (n : ℕ) (counts : Dict ℕ)
    → elem k valid_severities ≡ true
    → IsTable counts
    → IsTable (insert k n counts)
insert-IsTable k n counts h t j = elim (Bool-cases (text_eq k j)) [
  | inl e ↦ rw (lookup-insert k j n counts, e, ← text_eq_sound k j e) (sym h)
  | inr other_key ↦ rw (lookup-insert k j n counts, other_key) (t j)
]

counted_as-class :
    (counts : Dict ℕ) (s : Text) → IsTable counts → counted_as counts s ≡ severity_class s
unfolding counted_as
counted_as-class counts s t = ap (λ b. if b then s else codes "info") (t s)

abbrev zeros : List Text → Dict ℕ
zeros names = map (λ name. (name, 0)) names

zeros-keys : (names : List Text) (k : Text) → has_key k (zeros names) ≡ elem k names
unfolding lookup elem
zeros-keys [] k = refl
zeros-keys (x ∷ names) k = ground (arith, text_eq_iff x k, text_eq_iff k x, zeros-keys names k)

zeros-lookup :
    (k : Text) (names : List Text) → elem k names ≡ true → lookup k (zeros names) ≡ some 0
unfolding lookup elem
zeros-lookup k [] h = cc
zeros-lookup k (x ∷ names) h =
    ground (arith, text_eq_iff x k, text_eq_iff k x, zeros-lookup k names)

module _ {E : Type 0} where
  count_severities-exact :
      (name : Text) (n : ℕ) (counts : Dict ℕ) (fs : List (Finding E))
      → IsTable counts
      → lookup name counts ≡ some n
      → lookup name (count_severities counts fs) ≡ some (n + count (falls_under name) fs)
  unfolding count_severities count
  count_severities-exact name n counts [] t h = h ∙ ap some (omega arith)
  count_severities-exact name n counts (f ∷ fs) t h =
      let sev = severity_class f.severity in
      let counts' = insert sev (or_default (lookup sev counts) 0 + 1) counts in
      let t' =
        insert-IsTable sev (or_default (lookup sev counts) 0 + 1) counts
          (severity_class-valid f.severity) t in
      rw (counted_as-class counts f.severity t) (elim (Bool-cases (text_eq sev name)) [
        | inl e ↦
            let there : lookup sev counts ≡ some n = rw (text_eq_sound sev name e) h in
            let more : lookup name counts' ≡ some (n + 1) =
              lookup-insert sev name (or_default (lookup sev counts) 0 + 1) counts
              ∙ (ground (arith, e, there)) in
            count_severities-exact name (n + 1) counts' fs t' more ∙ ap some (ground (arith, e))
        | inr other_name ↦
            let same : lookup name counts' ≡ some n =
              lookup-insert sev name (or_default (lookup sev counts) 0 + 1) counts
              ∙ (ground (arith, other_name, h)) in
            count_severities-exact name n counts' fs t' same ∙ ap some (ground (arith, other_name))
      ])

  -- The envelope of a report counts, under each of the five severities, exactly the findings of that
  -- severity, those of an unknown severity as `info`; and it has the disclaimer exactly where it
  -- has a recommendation.
  severity_counts_exact :
      {S : Type 0} (number : ℕ) (database_name tool name : Text) (summary : S)
      (findings : List (Finding E)) (recommendations : List Recommendation)
      → elem name valid_severities ≡ true
      → let r = build_report_envelope number database_name tool summary findings recommendations in
        (lookup name r.severity_counts ≡ some (count (falls_under name) findings))
        × (is_some r.disclaimer ≡ not (is_empty recommendations))
  unfolding build_report_envelope
  severity_counts_exact number database_name tool name summary findings recommendations h = (
    count_severities-exact name 0 zero_counts findings (zeros-keys valid_severities)
          (zeros-lookup name valid_severities h)
        ∙ ap some (omega arith),
    no_empty recommendations,
  )
    where
      no_empty :
          (rs : List Recommendation)
          → is_some (if is_empty rs then none else some dba_review_disclaimer) ≡ not (is_empty rs)
      no_empty [] = refl
      no_empty (r ∷ rs) = refl

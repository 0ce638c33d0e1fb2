-- ===== src/Security/Privilege/Levels.antt =====
-- Which groups give which privilege.
use mcp_sql_server.Common.{
  Bool, Bool-cases, In, In-keep, In-map, In-nonempty, List, Text, [], arith, elem, elem_complete,
  elem_sound, false, if◌then◌else◌, inl, inr, is_empty, keep, keep-In, kept, lower, map, map-In,
  nonempty_In, not, ok, refl, split, strip, sym, true, ℕ, ◌↔◌, ◌∙◌, ◌∷◌, ◌≡◌, ◌≤◌,
}
use mcp_sql_server.Security.Privilege.{
  Claim, Level, Match, insert_sorted, items, no_claim, none_level, normal_groups, one_text,
  other_type, read_level, resolve_group_privilege, sorted, to_set, write_level,
}

-- The list names the group: one of its items, stripped, not blank and in lower case, is it.
abbrev pub Names : Text → List Text → Type 0
Names g xs = (x : Text) × In x xs × (is_empty (strip x) ≡ false) × (lower (strip x) ≡ g)

-- The items of a claim, before they are normalised.
abbrev pub raw_items : Claim → List Text
raw_items no_claim = []
raw_items (one_text raw) = split b',' raw
raw_items (items raw) = raw
raw_items (other_type name) = []

-- A group that both name.
abbrev pub Shares : List Text → List Text → Type 0
Shares xs ys = (g : Text) × Names g xs × Names g ys

pub to_set-In : (g : Text) (xs : List Text) → In g (to_set xs) → In g xs
unfolding to_set
to_set-In g [] m = m
to_set-In g (x ∷ xs) m = elim (Bool-cases (elem x (to_set xs))) [
  | inl e ↦ inr (to_set-In g xs (rw e at m))
  | inr n ↦ elim (rw n at m) [ inl e ↦ inl e | inr later ↦ inr (to_set-In g xs later) ]
]

pub In-to_set : (g : Text) (xs : List Text) → In g xs → In g (to_set xs)
unfolding to_set
In-to_set g [] m = m
In-to_set g (x ∷ xs) m = elim (Bool-cases (elem x (to_set xs))) [
  | inl e ↦ rw e (elim m [
    | inl same ↦ rw (← same) (elem_sound x (to_set xs) e)
    | inr later ↦ In-to_set g xs later
  ])
  | inr n ↦ rw n (elim m [ inl same ↦ inl same | inr later ↦ inr (In-to_set g xs later) ])
]

present : Text → Bool
present s = not (is_empty s)

normal_groups-Names : (g : Text) (xs : List Text) → In g (normal_groups xs) → Names g xs
unfolding normal_groups
normal_groups-Names g xs m =
    let (s, kept, low) = In-map lower g _ (to_set-In g _ m) in
    let (stripped, shown) = In-keep (λ s. not (is_empty s)) s (map strip xs) kept in
    let (x, there, e) = In-map strip s xs stripped in (x, there, rw e (ground arith), rw e low)

Names-normal_groups : (g : Text) (xs : List Text) → Names g xs → In g (normal_groups xs)
unfolding normal_groups
Names-normal_groups g xs (x, there, shown, low) =
    let kept =
      keep-In (λ s. not (is_empty s)) (strip x) (map strip xs) (map-In strip x xs there)
        (ground arith) in
    rw (← low) (In-to_set (lower (strip x)) _ (map-In lower (strip x) _ kept))

is_empty-sorted : (xs : List Text) → is_empty (sorted xs) ≡ is_empty xs
unfolding sorted
is_empty-sorted [] = refl
is_empty-sorted (x ∷ xs) = inserted (sorted xs)
  where
    inserted : (ys : List Text) → is_empty (insert_sorted x ys) ≡ false
    inserted [] = refl
    inserted (y ∷ ys) = ground arith

matches : List Text → List Text → List Text
matches xs ys = sorted (keep (λ g. elem g (normal_groups ys)) (normal_groups xs))

matches-Shares : (xs ys : List Text) → is_empty (matches xs ys) ≡ false → Shares xs ys
unfolding matches
matches-Shares xs ys h =
    let (g, m) = nonempty_In _ (sym (is_empty-sorted _) ∙ h) in
    let (there, test) = In-keep (λ g. elem g (normal_groups ys)) g (normal_groups xs) m in
    (g, normal_groups-Names g xs there, normal_groups-Names g ys (elem_sound g _ test))

Shares-matches : (xs ys : List Text) → Shares xs ys → is_empty (matches xs ys) ≡ false
unfolding matches
Shares-matches xs ys (g, in_xs, in_ys) =
    is_empty-sorted _
    ∙ In-nonempty g _ (
        keep-In (λ g. elem g (normal_groups ys)) g (normal_groups xs)
          (Names-normal_groups g xs in_xs) (elem_complete g _ (Names-normal_groups g ys in_ys)))

level_of : List Text → List Text → Level
level_of matched_read matched_write =
    if not (is_empty matched_write)
    then write_level
    else if not (is_empty matched_read)
    then read_level
    else none_level

resolved :
    (claim : Claim) (r w : List Text) (l : Level) (m : Match)
    → resolve_group_privilege claim r w true ≡ ok (l, m)
    → l ≡ level_of (matches (raw_items claim) r) (matches (raw_items claim) w)
unfolding resolve_group_privilege level_of matches normal_groups to_set keep
resolved no_claim r w l m h = ground arith
resolved (one_text raw) r w l m h = ground arith
resolved (items raw) r w l m h = ground arith
resolved (other_type name) r w l m h = absurd (ground arith)

-- With group authorization on, the privilege is write exactly when the claim and the write groups
-- name a group in common, none exactly when neither the read nor the write groups do, and so read
-- exactly when only the read groups do. Groups are compared without the white space around them
-- and without case, and blank ones are no groups.
pub level_exact :
    (claim : Claim) (r w : List Text) (l : Level) (m : Match)
    → resolve_group_privilege claim r w true ≡ ok (l, m)
    → let groups = raw_items claim in
      ((l ≡ write_level) ↔ Shares groups w)
      × ((l ≡ read_level) ↔ ((¬ Shares groups w) × Shares groups r))
      × ((l ≡ none_level) ↔ ((¬ Shares groups w) × (¬ Shares groups r)))
unfolding level_of
level_exact claim r w l m h =
    let groups = raw_items claim in
    let e = resolved claim r w l m h in
    let to_w = matches-Shares groups w in
    let to_r = matches-Shares groups r in
    let of_w = Shares-matches groups w in
    let of_r = Shares-matches groups r in
    elim (Bool-cases (is_empty (matches groups w))) [
      | inr some_w ↦
          let share = to_w some_w in
          (
            ((λ _. share), (λ _. ground arith)),
            ((λ bad. absurd (ground arith)), (λ both. absurd (both.0 share))),
            ((λ bad. absurd (ground arith)), (λ both. absurd (both.0 share))),
          )
      | inl no_w ↦
          let none_w : ¬ Shares groups w = λ s. let c = of_w s in cc in
          elim (Bool-cases (is_empty (matches groups r))) [
            | inr some_r ↦
                let share = to_r some_r in
                (
                  ((λ bad. absurd (ground arith)), (λ s. absurd (none_w s))),
                  ((λ _. (none_w, share)), (λ _. ground arith)),
                  ((λ bad. absurd (ground arith)), (λ both. absurd (both.1 share))),
                )
            | inl no_r ↦
                let none_r : ¬ Shares groups r = λ s. let c = of_r s in cc in
                (
                  ((λ bad. absurd (ground arith)), (λ s. absurd (none_w s))),
                  ((λ bad. absurd (ground arith)), (λ both. absurd (none_r both.1))),
                  ((λ _. (none_w, none_r)), (λ _. ground arith)),
                )
          ]
    ]

abbrev pub rank : Level → ℕ
rank none_level = 0
rank read_level = 1
rank write_level = 2

Names-mono :
    (g : Text) (xs ys : List Text) → ((x : Text) → In x xs → In x ys) → Names g xs → Names g ys
Names-mono g xs ys sub (x, there, shown, low) = (x, sub x there, shown, low)

-- More groups never lower the privilege: a principal that is in all groups of another, as the
-- claims list them, has at least its privilege.
pub privilege_mono :
    (xs ys : List Text) (r w : List Text) (l l' : Level) (m m' : Match)
    → ((x : Text) → In x xs → In x ys)
    → resolve_group_privilege (items xs) r w true ≡ ok (l, m)
    → resolve_group_privilege (items ys) r w true ≡ ok (l', m')
    → rank l ≤ rank l'
privilege_mono xs ys r w l l' m m' sub h h' =
    let (write_of, read_of, none_of) = level_exact (items xs) r w l m h in
    let (write_of', read_of', none_of') = level_exact (items ys) r w l' m' h' in
    let grow = λ (zs : List Text) (s : Shares xs zs).
      let t : Shares ys zs = (s.0, Names-mono s.0 xs ys sub s.1, s.2) in t in
    compared l l' (λ e. write_of'.1 (grow w (write_of.0 e)))
      (λ e k. (none_of'.0 k).1 (grow r (read_of.0 e).1))
  where
    compared :
        (l l' : Level)
        → (l ≡ write_level → l' ≡ write_level)
        → (l ≡ read_level → ¬ (l' ≡ none_level))
        → rank l ≤ rank l'
    compared write_level l' up keep = rw (up refl) (omega arith)
    compared none_level l' up keep = omega arith
    compared read_level write_level up keep = omega arith
    compared read_level read_level up keep = omega arith
    compared read_level none_level up keep = absurd (keep refl refl)

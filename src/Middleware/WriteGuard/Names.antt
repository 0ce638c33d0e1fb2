-- ===== src/Middleware/WriteGuard/Names.antt =====
-- The normal forms of procedure names of one, two and more parts.
use mcp_sql_server.Middleware.WriteGuard.Procedures.{normal_form, validate_exact}
use mcp_sql_server.Common.{
  Bool, List, Text, [], ap, append_assoc, arith, codes, false, if◌then◌else◌, is_empty, is_space,
  keep, keep-append, lower, lower_char, lstrip, not, ok, refl, rstrip, split, split_first, strip,
  sym, text_eq, true, without, ℕ, ◌&&◌, ◌++◌, ◌==◌, ◌↔◌, ◌∙◌, ◌∷◌, ◌≡◌,
}
use mcp_sql_server.Middleware.WriteGuard.Comments.{AllChars}
use mcp_sql_server.Middleware.WriteGuard.{
  WriteGuard, default_schema_of, dotted_parts, match_mode, normalize_proc_name, qualify,
  validate_procedure,
}
use mathlib.Core.List.{map-append}

-- A character of a plain part of a name: no dot, no bracket, no white space.
abbrev pub name_char : ℕ → Bool
name_char c = not (c == b'.') && not (c == b'[') && not (c == b']') && not (is_space c)

split_first-append :
    (c : ℕ) (a b : Text)
    → split_first c (a ++ c ∷ b) ≡ ((split_first c a).0, (split_first c a).1 ++ split c b)
unfolding split_first split
split_first-append c [] b = ground arith
split_first-append c (x ∷ a) b = ground (arith, split_first-append c a b)

dotted_parts-append : (a b : Text) → dotted_parts (a ++ b'.' ∷ b) ≡ dotted_parts a ++ dotted_parts b
unfolding split
dotted_parts-append a b =
    let present = λ (p : Text). not (is_empty p) in
    rw (split_first-append b'.' a b) (keep-append present (split b'.' a) (split b'.' b))

split_first-plain : (c : ℕ) (s : Text) → AllChars (λ x. not (x == c)) s → split_first c s ≡ (s, [])
unfolding split_first
split_first-plain c [] h = refl
split_first-plain c (x ∷ s) h = ground (arith, split_first-plain c s h.1)

dotted_parts-plain :
    (c : ℕ) (s : Text)
    → AllChars (λ x. not (x == b'.')) (c ∷ s)
    → dotted_parts (c ∷ s) ≡ (c ∷ s) ∷ []
unfolding split keep
dotted_parts-plain c s h = ground (arith, split_first-plain b'.' (c ∷ s) h)

-- The steps of the normalisation after `strip`.
abbrev cleaned : Text → Text
cleaned s = without b']' (without b'[' (lower s))

cleaned-append : (a b : Text) → cleaned (a ++ b) ≡ cleaned a ++ cleaned b
cleaned-append a b = rw (
  map-append lower_char a b,
  keep-append (λ x. not (x == b'[')) (lower a) (lower b),
  keep-append (λ x. not (x == b']')) (without b'[' (lower a)) (without b'[' (lower b)),
)

name_char-lower :
    (c : ℕ)
    → name_char c ≡ true
    → (not (lower_char c == b'.') ≡ true)
      × (not (lower_char c == b'[') ≡ true)
      × (not (lower_char c == b']') ≡ true)
unfolding lower_char
name_char-lower c h = ground arith

cleaned-name : (s : Text) → AllChars name_char s → cleaned s ≡ lower s
unfolding keep
cleaned-name [] h = refl
cleaned-name (c ∷ s) h =
    let (dot, open_bracket, close_bracket) = name_char-lower c h.0 in
    rw (open_bracket, close_bracket) (ap (◌∷◌ (lower_char c)) (cleaned-name s h.1))

lower-name : (s : Text) → AllChars name_char s → AllChars (λ x. not (x == b'.')) (lower s)
lower-name [] h = tt
lower-name (c ∷ s) h = ((name_char-lower c h.0).0, lower-name s h.1)

lstrip-append : (x y : Text) (c : ℕ) → is_space c ≡ false → lstrip (x ++ c ∷ y) ≡ lstrip x ++ c ∷ y
unfolding lstrip
lstrip-append [] y c h = ground arith
lstrip-append (d ∷ x) y c h = ground (arith, lstrip-append x y c h)

name_char-space : (c : ℕ) → name_char c ≡ true → is_space c ≡ false
name_char-space c h = ground arith

rstrip-name : (c : ℕ) (s : Text) → AllChars name_char (c ∷ s) → rstrip (c ∷ s) ≡ c ∷ s
unfolding rstrip
rstrip-name c [] h = rw (name_char-space c h.0)
rstrip-name c (d ∷ s) h = rw (rstrip-name d s h.1)

rstrip-append :
    (z : Text) (c : ℕ) (s : Text) → AllChars name_char (c ∷ s) → rstrip (z ++ c ∷ s) ≡ z ++ c ∷ s
unfolding rstrip
rstrip-append [] c s h = rstrip-name c s h
rstrip-append (d ∷ []) c s h = rw (rstrip-name c s h)
rstrip-append (d ∷ e ∷ z) c s h = rw (rstrip-append (e ∷ z) c s h)

rstrip_of :
    (t z : Text) (c : ℕ) (s : Text) → t ≡ z ++ c ∷ s → AllChars name_char (c ∷ s) → rstrip t ≡ t
rstrip_of t z c s e h = rw e (rstrip-append z c s h)

qualify-last_two :
    (mode default_schema : Text) (xs : List Text) (p q : Text)
    → qualify mode default_schema (xs ++ p ∷ q ∷ []) ≡ p ++ b'.' ∷ q
unfolding qualify
qualify-last_two mode d [] p q = refl
qualify-last_two mode d (x ∷ []) p q = refl
qualify-last_two mode d (x ∷ y ∷ []) p q = refl
qualify-last_two mode d (x ∷ y ∷ z ∷ xs) p q = qualify-last_two mode d (y ∷ z ∷ xs) p q

cleaned-dot : (a b : Text) → cleaned (a ++ b'.' ∷ b) ≡ cleaned a ++ b'.' ∷ cleaned b
unfolding lower_char keep
cleaned-dot a b = cleaned-append a (b'.' ∷ b)

module _ (a b : ℕ) (s n : Text) (schema : AllChars name_char (a ∷ s))
    (name : AllChars name_char (b ∷ n)) where
  abbrev two : Text
  two = (a ∷ s) ++ b'.' ∷ b ∷ n

  abbrev two_lower : Text
  two_lower = lower (a ∷ s) ++ b'.' ∷ lower (b ∷ n)

  strip-two : strip two ≡ two
  unfolding strip
  strip-two =
      ap rstrip (lstrip-append [] (s ++ b'.' ∷ b ∷ n) a (name_char-space a schema.0))
      ∙ rstrip_of two ((a ∷ s) ++ b'.' ∷ []) b n (sym (append_assoc (a ∷ s) (b'.' ∷ []) (b ∷ n)))
          name

  strip-prefix : (x : Text) → strip (x ++ b'.' ∷ two) ≡ lstrip x ++ b'.' ∷ two
  unfolding strip is_space
  strip-prefix x =
      let front = b'.' ∷ (a ∷ s) ++ b'.' ∷ [] in
      let joined : lstrip x ++ b'.' ∷ two ≡ (lstrip x ++ front) ++ b ∷ n = sym (
        append_assoc (lstrip x) front (b ∷ n)
        ∙ ap (◌++◌ (lstrip x)) (append_assoc (b'.' ∷ a ∷ s) (b'.' ∷ []) (b ∷ n))) in
      ap rstrip (lstrip-append x two b'.' refl)
      ∙ rstrip_of (lstrip x ++ b'.' ∷ two) (lstrip x ++ front) b n joined name

  parts-two : dotted_parts two_lower ≡ lower (a ∷ s) ∷ lower (b ∷ n) ∷ []
  parts-two = rw (
    dotted_parts-append (lower (a ∷ s)) (lower (b ∷ n)),
    dotted_parts-plain (lower_char a) (lower s) (lower-name (a ∷ s) schema),
    dotted_parts-plain (lower_char b) (lower n) (lower-name (b ∷ n) name),
  )

  cleaned-two : cleaned two ≡ two_lower
  cleaned-two =
      cleaned-dot (a ∷ s) (b ∷ n) ∙ rw (cleaned-name (a ∷ s) schema, cleaned-name (b ∷ n) name)

  normalize-two : (mode d : Text) → normalize_proc_name two mode d ≡ two_lower
  unfolding normalize_proc_name
  normalize-two mode d =
      rw (strip-two, cleaned-two, parts-two)
        (qualify-last_two mode d [] (lower (a ∷ s)) (lower (b ∷ n)))

  normalize-prefix : (x mode d : Text) → normalize_proc_name (x ++ b'.' ∷ two) mode d ≡ two_lower
  unfolding normalize_proc_name
  normalize-prefix x mode d =
      rw
        (
          strip-prefix x,
          cleaned-dot (lstrip x) two,
          cleaned-two,
          dotted_parts-append (cleaned (lstrip x)) two_lower,
          parts-two,
        )
        (qualify-last_two mode d (dotted_parts (cleaned (lstrip x))) (lower (a ∷ s))
          (lower (b ∷ n)))

-- Only the last two parts of a name count: if a procedure of two plain parts passes, so does the
-- same name after any text whatever and a dot, such as another database, a linked server, or
-- whole statements; and the other way round.
prefix_ignored :
    (g : WriteGuard) (tool_name x : Text) (a b : ℕ) (s n : Text)
    → AllChars name_char (a ∷ s)
    → AllChars name_char (b ∷ n)
    → let proc_name = (a ∷ s) ++ b'.' ∷ b ∷ n in
      (validate_procedure g tool_name (x ++ b'.' ∷ proc_name) ≡ ok tt)
      ↔ (validate_procedure g tool_name proc_name ≡ ok tt)
prefix_ignored g tool_name x a b s n schema name =
    let proc_name = (a ∷ s) ++ b'.' ∷ b ∷ n in
    let mode = match_mode g.policy in
    let d = default_schema_of g.policy in
    let same : normal_form g (x ++ b'.' ∷ proc_name) ≡ normal_form g proc_name =
      normalize-prefix a b s n schema name x mode d
      ∙ sym (normalize-two a b s n schema name mode d) in
    let long = validate_exact g tool_name (x ++ b'.' ∷ proc_name) in
    let short = validate_exact g tool_name proc_name in
    (
      (λ h.
          let (config, found, (p, there, e)) = long.0 h in
          short.1 (config, found, (p, there, e ∙ same))),
      (λ h.
          let (config, found, (p, there, e)) = short.0 h in
          long.1 (config, found, (p, there, e ∙ sym same))),
    )

strip-name : (c : ℕ) (s : Text) → AllChars name_char (c ∷ s) → strip (c ∷ s) ≡ c ∷ s
unfolding strip
strip-name c s h = ap rstrip (lstrip-append [] s c (name_char-space c h.0)) ∙ rstrip-name c s h

-- A plain name of one part has the normal form of itself in lower case under the default schema,
-- or of itself alone where the match mode is strict.
pub normal_form-bare :
    (g : WriteGuard) (c : ℕ) (s : Text)
    → AllChars name_char (c ∷ s)
    → normal_form g (c ∷ s) ≡ (
        if text_eq (match_mode g.policy) (codes "default_schema_expand")
        then default_schema_of g.policy ++ b'.' ∷ lower (c ∷ s)
        else lower (c ∷ s))
unfolding normalize_proc_name qualify
normal_form-bare g c s h = rw (
  strip-name c s h,
  cleaned-name (c ∷ s) h,
  dotted_parts-plain (lower_char c) (lower s) (lower-name (c ∷ s) h),
)

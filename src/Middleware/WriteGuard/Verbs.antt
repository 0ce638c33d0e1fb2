-- ===== src/Middleware/WriteGuard/Verbs.antt =====
-- Which statements `enforce` takes for writes.
use mcp_sql_server.Middleware.WriteGuard.Lead.{
  Lead, blank_first, cleaned, cleaned_blank, cleaned_plain, first_verb-Lead, first_verb-cleaned,
  word_char, word_char_split,
}
use mcp_sql_server.Middleware.WriteGuard.Comments.{
  AllChars, AllChars-of, block, drop_blocks-block, no_star-close,
}
use mcp_sql_server.Middleware.WriteGuard.{
  WriteGuard, blocked_by_denylist, blocked_by_policy, drop_lines, enforce, first_verb, write_verbs,
}
use mcp_sql_server.Common.{
  Bool, Bool-cases, Each, List, Text, [], all, any, ap, append_assoc, arith, codes, elem, false,
  if◌then◌else◌, inl, inr, is_space, leb, not, ok, raise, refl, sym, text_eq, text_eq_sound, true,
  upper, upper_char, ℕ, ◌&&◌, ◌++◌, ◌==◌, ◌∙◌, ◌∷◌, ◌≡◌,
}

-- Two words with a block comment and nothing else between them are one word to `_first_verb`.
first_verb-glued :
    (c : ℕ) (v body w t : Text)
    → AllChars word_char (c ∷ v)
    → AllChars word_char w
    → AllChars (λ c. not (c == b'*')) body
    → blank_first t ≡ true
    → first_verb ((c ∷ v) ++ (block body ++ (w ++ t))) ≡ upper ((c ∷ v) ++ w)
first_verb-glued c v body w t h k n b =
    let (slash, dash, blank) = word_char_split (c ∷ v) h in
    let (slash', dash', blank') = word_char_split w k in
    let tail = block body ++ (w ++ t) in
    let whole : cleaned ((c ∷ v) ++ tail) ≡ (c ∷ v) ++ (w ++ cleaned t) =
      cleaned_plain (c ∷ v) tail slash dash
      ∙ ap (◌++◌ (c ∷ v)) (
          ap (drop_lines false) (drop_blocks-block body (w ++ t) (no_star-close body n))
          ∙ cleaned_plain w t slash' dash') in
    first_verb-cleaned ((c ∷ v) ++ tail) [] c (v ++ w) (cleaned t)
      (whole ∙ sym (append_assoc (c ∷ v) w (cleaned t))) tt (both (c ∷ v) w blank blank')
      (cleaned_blank t b)
  where
    both :
        (x y : Text)
        → AllChars (λ c. not (is_space c)) x
        → AllChars (λ c. not (is_space c)) y
        → AllChars (λ c. not (is_space c)) (x ++ y)
    both [] y h k = k
    both (c ∷ x) y h k = (h.0, both x y h.1 k)

-- Every write verb is made of word characters, in either case.
upper_word_char :
    (c : ℕ) → leb b'A' (upper_char c) && leb (upper_char c) b'Z' ≡ true → word_char c ≡ true
unfolding upper_char is_space
upper_word_char c h = ground arith

abbrev capital : ℕ → Bool
capital c = leb b'A' c && leb c b'Z'

upper-word : (v : Text) → AllChars capital (upper v) → AllChars word_char v
upper-word [] h = tt
upper-word (c ∷ v) h = (upper_word_char c h.0, upper-word v h.1)

in_list : (P : Text → Type 0) (v : Text) (ts : List Text) → Each P ts → elem v ts ≡ true → P v
unfolding elem
in_list P v [] all h = cc
in_list P v (t ∷ ts) all h = elim (Bool-cases (text_eq v t)) [
  | inl e ↦ rw (text_eq_sound v t e) all.0
  | inr n ↦ in_list P v ts all.1 (rw n at h)
]

write_verbs-capital : Each (AllChars capital) write_verbs
unfolding all
write_verbs-capital = each write_verbs refl
  where
    each : (ts : List Text) → all (all capital) ts ≡ true → Each (AllChars capital) ts
    each [] h = tt
    each (t ∷ ts) h = elim (Bool-cases (all capital t)) [
      | inl e ↦ (AllChars-of capital t e, each ts (rw e at h))
      | inr n ↦ absurd (ground arith)
    ]

-- In deny mode a statement whose first word, in any mixture of cases, is a write verb is refused to
-- every tool that is not in `allowed_write_tools`, whatever follows it after white space, and
-- whatever stands before it of white space, of block comments that end at their first `*/`, and of
-- line comments without a `/*`. The error is that of the denylist if one of its
-- patterns matches, and else the one that names the tool.
pub write_refused :
    (g : WriteGuard) (tool_name : Text) {p : Text} (lead : Lead p) (c : ℕ) (v t : Text)
    → g.policy.write_mode_default ≡ codes "deny"
    → elem tool_name g.policy.allowed_write_tools ≡ false
    → elem (upper (c ∷ v)) write_verbs ≡ true
    → blank_first t ≡ true
    → let sql = p ++ ((c ∷ v) ++ t) in
      enforce g tool_name sql
      ≡ raise (
          if any (λ pattern. pattern sql) g.blocked
          then blocked_by_denylist
          else blocked_by_policy tool_name)
unfolding enforce text_eq
write_refused g tool_name {p} lead c v t deny other verb blank =
    let word =
      upper-word (c ∷ v)
        (in_list (AllChars capital) (upper (c ∷ v)) write_verbs write_verbs-capital verb) in
    let first = first_verb-Lead lead c v t word blank in ground (arith, first, deny, other, verb)

-- A block comment, empty or not, that stands between two words with no white space hides a write
-- verb: the words are read as one. Such a statement passes in any mode and for any tool, unless
-- the denylist matches it or the two words make up a write verb.
pub comment_hides_verb :
    (g : WriteGuard) (tool_name : Text) (c : ℕ) (v body w t : Text)
    → AllChars word_char (c ∷ v)
    → AllChars word_char w
    → AllChars (λ c. not (c == b'*')) body
    → blank_first t ≡ true
    → elem (upper ((c ∷ v) ++ w)) write_verbs ≡ false
    → let sql = (c ∷ v) ++ (block body ++ (w ++ t)) in
      any (λ pattern. pattern sql) g.blocked ≡ false → enforce g tool_name sql ≡ ok tt
unfolding enforce
comment_hides_verb g tool_name c v body w t h k n b other clear =
    ground (arith, first_verb-glued c v body w t h k n b, other, clear)

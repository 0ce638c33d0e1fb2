-- ===== src/Middleware/WriteGuard/Lead.antt =====
-- The first word of a statement behind white space and comments, as `_first_verb` finds it.
use mcp_sql_server.Middleware.WriteGuard.Comments.{
  AllChars, block, drop_blocks-block, drop_blocks-line, drop_blocks-plain, drop_lines-line,
  drop_lines-plain, has_close, has_open, line,
}
use mcp_sql_server.Middleware.WriteGuard.{drop_blocks, drop_lines, first_verb, first_word}
use mcp_sql_server.Common.{
  Bool, Text, [], ap, append_assoc, arith, false, is_space, lstrip, not, refl, rstrip, true, upper,
  ℕ, ◌&&◌, ◌++◌, ◌==◌, ◌∙◌, ◌∷◌, ◌≡◌,
}

-- A character of a word: no white space, and none that can begin a comment.
abbrev pub word_char : ℕ → Bool
word_char c = not (is_space c) && not (c == b'/') && not (c == b'-')

-- White space and comments before a statement. A block comment ends at its first `*/`; a line comment
-- ends at its line break, and no `/*` stands in it.
pub data Lead : Text → Type 0 where
  nothing : Lead []
  space : (c : ℕ) (p : Text) → is_space c ≡ true → Lead p → Lead (c ∷ p)
  block_comment : (body p : Text) → has_close body ≡ false → Lead p → Lead (block body ++ p)
  line_comment :
      (body p : Text)
      → AllChars (λ c. not (c == b'\n')) body
      → has_open body ≡ false
      → Lead p
      → Lead (line body ++ p)

abbrev pub cleaned : Text → Text
cleaned s = drop_lines false (drop_blocks 0 s)

-- What the two substitutions leave of it.
left_of : {p : Text} → Lead p → Text
left_of nothing = []
left_of (space c p h l) = c ∷ left_of l
left_of (block_comment body p h l) = left_of l
left_of (line_comment body p h k l) = b'\n' ∷ left_of l

space_char : (c : ℕ) → is_space c ≡ true → (not (c == b'/') ≡ true) × (not (c == b'-') ≡ true)
unfolding is_space
space_char c h = ground arith

pub cleaned_plain :
    (s t : Text)
    → AllChars (λ c. not (c == b'/')) s
    → AllChars (λ c. not (c == b'-')) s
    → cleaned (s ++ t) ≡ s ++ cleaned t
cleaned_plain s t h k =
    ap (drop_lines false) (drop_blocks-plain s t h) ∙ drop_lines-plain s (drop_blocks 0 t) k

cleaned-Lead : {p : Text} (l : Lead p) (t : Text) → cleaned (p ++ t) ≡ left_of l ++ cleaned t
unfolding left_of
cleaned-Lead nothing t = refl
cleaned-Lead (space c p h l) t =
    let (slash, dash) = space_char c h in
    cleaned_plain (c ∷ []) (p ++ t) (slash, tt) (dash, tt) ∙ ap (◌∷◌ c) (cleaned-Lead l t)
cleaned-Lead (block_comment body p h l) t =
    rw (append_assoc (block body) p t, drop_blocks-block body (p ++ t) h) (cleaned-Lead l t)
cleaned-Lead (line_comment body p h k l) t =
    rw
      (
        append_assoc (line body) p t,
        drop_blocks-line body (p ++ t) k,
        drop_lines-line body (drop_blocks 0 (p ++ t)) h,
      )
      (ap (◌∷◌ b'\n') (cleaned-Lead l t))

left_of-spaces : {p : Text} (l : Lead p) → AllChars is_space (left_of l)
unfolding left_of is_space
left_of-spaces nothing = tt
left_of-spaces (space c p h l) = (h, left_of-spaces l)
left_of-spaces (block_comment body p h l) = left_of-spaces l
left_of-spaces (line_comment body p h k l) = (refl, left_of-spaces l)

lstrip-spaces : (q t : Text) → AllChars is_space q → lstrip (q ++ t) ≡ lstrip t
unfolding lstrip
lstrip-spaces [] t h = refl
lstrip-spaces (c ∷ q) t h = rw h.0 (lstrip-spaces q t h.1)

-- The end of the text, or white space.
abbrev pub blank_first : Text → Bool
blank_first [] = true
blank_first (c ∷ s) = is_space c

first_word-rstrip :
    (v t : Text)
    → AllChars (λ c. not (is_space c)) v
    → blank_first t ≡ true
    → first_word (rstrip (v ++ t)) ≡ v
unfolding first_word rstrip
first_word-rstrip [] [] h b = refl
first_word-rstrip [] (c ∷ t) h b = ground arith
first_word-rstrip (c ∷ v) t h b = ground (arith, first_word-rstrip v t h.1 b)

pub word_char_split :
    (v : Text)
    → AllChars word_char v
    → AllChars (λ c. not (c == b'/')) v
      × AllChars (λ c. not (c == b'-')) v
      × AllChars (λ c. not (is_space c)) v
word_char_split [] h = (tt, tt, tt)
word_char_split (c ∷ v) h =
    let (slash, dash, blank) = word_char_split v h.1 in
    let facts = parts (not (is_space c)) (not (c == b'/')) (not (c == b'-')) h.0 in
    ((facts.1, slash), (facts.2, dash), (facts.0, blank))
  where
    parts : (a b c : Bool) → a && b && c ≡ true → (a ≡ true) × (b ≡ true) × (c ≡ true)
    parts a b c h = ground arith

pub cleaned_blank : (t : Text) → blank_first t ≡ true → blank_first (cleaned t) ≡ true
unfolding drop_blocks drop_lines
cleaned_blank [] h = refl
cleaned_blank (c ∷ t) h =
    let (slash, dash) = space_char c h in rw (cleaned_plain (c ∷ []) t (slash, tt) (dash, tt)) h

lstrip-word : (c : ℕ) (s : Text) → not (is_space c) ≡ true → lstrip (c ∷ s) ≡ c ∷ s
unfolding lstrip
lstrip-word c s h = ground arith

-- The two substitutions and the stripping leave the first word at the front.
pub first_verb-cleaned :
    (sql : Text) (q : Text) (c : ℕ) (v t : Text)
    → cleaned sql ≡ q ++ ((c ∷ v) ++ t)
    → AllChars is_space q
    → AllChars (λ c. not (is_space c)) (c ∷ v)
    → blank_first t ≡ true
    → first_verb sql ≡ upper (c ∷ v)
unfolding first_verb
first_verb-cleaned sql q c v t e spaces word blank =
    rw (e, lstrip-spaces q ((c ∷ v) ++ t) spaces, lstrip-word c (v ++ t) word.0)
      (ap upper (first_word-rstrip (c ∷ v) t word blank))

-- The first word after white space and comments, up to white space or the end, is the verb.
pub first_verb-Lead :
    {p : Text} (l : Lead p) (c : ℕ) (v t : Text)
    → AllChars word_char (c ∷ v)
    → blank_first t ≡ true
    → first_verb (p ++ ((c ∷ v) ++ t)) ≡ upper (c ∷ v)
first_verb-Lead {p} l c v t h b =
    let (slash, dash, blank) = word_char_split (c ∷ v) h in
    let whole =
      cleaned-Lead l ((c ∷ v) ++ t) ∙ ap (◌++◌ (left_of l)) (cleaned_plain (c ∷ v) t slash dash) in
    first_verb-cleaned (p ++ ((c ∷ v) ++ t)) (left_of l) c v (cleaned t) whole (left_of-spaces l)
      blank (cleaned_blank t b)

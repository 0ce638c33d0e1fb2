-- ===== src/Middleware/WriteGuard/Comments.antt =====
-- What `_first_verb` makes of the text before and after the first word.
use mcp_sql_server.Common.{
  Bool, Bool-cases, Each, Text, [], all, ap, append_assoc, arith, contains, false, inl, inr, length,
  length-append, none, not, refl, some, starts_with, true, ℕ, ◌&&◌, ◌++◌, ◌+◌, ◌==◌, ◌∙◌, ◌∷◌, ◌≡◌,
}
use mcp_sql_server.Middleware.WriteGuard.{close_length, comment_length, drop_blocks, drop_lines}

-- Every character passes the test.
abbrev pub AllChars : (ℕ → Bool) → Text → Type 0
AllChars p s = Each (λ c. p c ≡ true) s

abbrev no_slash : ℕ → Bool
no_slash c = not (c == b'/')

abbrev no_dash : ℕ → Bool
no_dash c = not (c == b'-')

-- Text without a slash begins no block comment.
pub drop_blocks-plain :
    (s t : Text) → AllChars (λ c. not (c == b'/')) s → drop_blocks 0 (s ++ t) ≡ s ++ drop_blocks 0 t
unfolding drop_blocks
drop_blocks-plain [] t h = refl
drop_blocks-plain (c ∷ s) t h =
    rw (comment_length_none c (s ++ t) h.0, drop_blocks) (ap (◌∷◌ c) (drop_blocks-plain s t h.1))
  where
    comment_length_none :
        (c : ℕ) (s : Text) → not (c == b'/') ≡ true → comment_length (c ∷ s) ≡ none
    comment_length_none c [] e = refl
    comment_length_none c (d ∷ s) e = ground arith

drop_blocks-skip : (s t : Text) → drop_blocks (length s) (s ++ t) ≡ drop_blocks 0 t
unfolding drop_blocks
drop_blocks-skip [] t = refl
drop_blocks-skip (c ∷ s) t = drop_blocks-skip s t

-- No comment ends in the text, and none begins in it.
abbrev pub has_close : Text → Bool
has_close s = contains (b'*' ∷ b'/' ∷ []) s

abbrev pub has_open : Text → Bool
has_open s = contains (b'/' ∷ b'*' ∷ []) s

-- The first `*/` after a body without one.
close_length-body :
    (body t : Text)
    → has_close body ≡ false
    → close_length (body ++ b'*' ∷ b'/' ∷ t) ≡ some (length body + 2)
unfolding close_length starts_with contains
close_length-body [] t h = ground arith
close_length-body (c ∷ []) t h = ground arith
close_length-body (c ∷ d ∷ body) t h = ground (arith, close_length-body (d ∷ body) t (ground arith))

pub no_star-close : (body : Text) → AllChars (λ c. not (c == b'*')) body → has_close body ≡ false
unfolding contains starts_with
no_star-close [] h = refl
no_star-close (c ∷ body) h = ground (arith, no_star-close body h.1)

comment_length-none :
    (c d : ℕ) (s : Text) → c == b'/' && d == b'*' ≡ false → comment_length (c ∷ d ∷ s) ≡ none
unfolding comment_length
comment_length-none c d s h = rw h refl

drop_blocks-step :
    (c : ℕ) (s : Text) → comment_length (c ∷ s) ≡ none → drop_blocks 0 (c ∷ s) ≡ c ∷ drop_blocks 0 s
unfolding drop_blocks
drop_blocks-step c s h = rw (h, drop_blocks) refl

-- A line in which no block comment begins.
drop_blocks-open :
    (s t : Text)
    → has_open s ≡ false
    → drop_blocks 0 (s ++ b'\n' ∷ t) ≡ s ++ b'\n' ∷ drop_blocks 0 t
unfolding drop_blocks contains starts_with
drop_blocks-open [] t h = drop_blocks-plain (b'\n' ∷ []) t (refl, tt)
drop_blocks-open (c ∷ []) t h =
    drop_blocks-step c (b'\n' ∷ t) (comment_length-none c b'\n' t (ground arith))
    ∙ ap (◌∷◌ c) (drop_blocks-open [] t refl)
drop_blocks-open (c ∷ d ∷ s) t h =
    drop_blocks-step c (d ∷ s ++ b'\n' ∷ t)
      (comment_length-none c d (s ++ b'\n' ∷ t) (ground arith))
    ∙ ap (◌∷◌ c) (drop_blocks-open (d ∷ s) t (ground arith))

abbrev pub block : Text → Text
block body = b'/' ∷ b'*' ∷ body ++ b'*' ∷ b'/' ∷ []

drop_blocks-match :
    (n : ℕ) (s : Text)
    → close_length s ≡ some n
    → drop_blocks 0 (b'/' ∷ b'*' ∷ s) ≡ drop_blocks (n + 1) (b'*' ∷ s)
unfolding drop_blocks
drop_blocks-match n s e = ground arith

-- A block comment goes as a whole, and leaves nothing in its place.
pub drop_blocks-block :
    (body t : Text) → has_close body ≡ false → drop_blocks 0 (block body ++ t) ≡ drop_blocks 0 t
drop_blocks-block body t h =
    let tail = b'*' ∷ b'/' ∷ [] in
    let all = b'*' ∷ body ++ tail in
    let size : length body + 2 + 1 ≡ length all = omega (arith, length-append body tail) in
    let found =
      drop_blocks-match (length body + 2) (body ++ b'*' ∷ b'/' ∷ t) (close_length-body body t h) in
    rw (append_assoc body tail t)
      (found ∙ (rw (size, ← append_assoc body tail t) (drop_blocks-skip all t)))

pub drop_lines-plain :
    (s t : Text)
    → AllChars (λ c. not (c == b'-')) s
    → drop_lines false (s ++ t) ≡ s ++ drop_lines false t
unfolding drop_lines starts_with
drop_lines-plain [] t h = refl
drop_lines-plain (c ∷ s) t h = ground (arith, drop_lines-plain s t h.1)

drop_lines-inside :
    (body t : Text)
    → AllChars (λ c. not (c == b'\n')) body
    → drop_lines true (body ++ b'\n' ∷ t) ≡ b'\n' ∷ drop_lines false t
unfolding drop_lines
drop_lines-inside [] t h = ground arith
drop_lines-inside (c ∷ body) t h = ground (arith, drop_lines-inside body t h.1)

abbrev pub line : Text → Text
line body = b'-' ∷ b'-' ∷ body ++ b'\n' ∷ []

-- A line comment goes up to the end of its line.
pub drop_lines-line :
    (body t : Text)
    → AllChars (λ c. not (c == b'\n')) body
    → drop_lines false (line body ++ t) ≡ b'\n' ∷ drop_lines false t
unfolding drop_lines starts_with
drop_lines-line body t h = rw (append_assoc body (b'\n' ∷ []) t) (drop_lines-inside body t h)

-- A line comment in which no block comment begins is left alone by the first substitution.
pub drop_blocks-line :
    (body t : Text)
    → has_open body ≡ false
    → drop_blocks 0 (line body ++ t) ≡ line body ++ drop_blocks 0 t
unfolding contains starts_with
drop_blocks-line body t h =
    rw (append_assoc body (b'\n' ∷ []) t, append_assoc body (b'\n' ∷ []) (drop_blocks 0 t))
      (drop_blocks-open (b'-' ∷ b'-' ∷ body) t (ground (arith, h)))

pub AllChars-of : (p : ℕ → Bool) (s : Text) → all p s ≡ true → AllChars p s
unfolding all
AllChars-of p [] h = tt
AllChars-of p (c ∷ s) h = elim (Bool-cases (p c)) [
  | inl e ↦ (e, AllChars-of p s (rw e at h))
  | inr n ↦ absurd (ground arith)
]

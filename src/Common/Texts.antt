-- ===== src/Common/Texts.antt =====
-- Python's `str` as the list of its code points, with the methods that the source calls.
-- `lower` and `upper` map the ASCII letters: they are Python's on ASCII text.
use Prim.Native.Char.{code}
use Prim.Native.Nat.{ℕ, ◌+◌, ◌-◌}
use Prim.Native.String.{String}
use mathlib.Core.Path.{◌≡◌, refl}
use mathlib.Core.Logic.{◌↔◌, inl, inr}
use mathlib.Core.Bool.{Bool, true, false, not, ◌&&◌, ◌||◌}
use mathlib.Core.List.{List, [], ◌∷◌, map}
use native.Mathlib.Omega.{arith}
use mcp_sql_server.Common.Lists.{is_empty, keep}
use mcp_sql_server.Common.Tests.{if◌then◌else◌, leb, ◌==◌, Bool-cases}

abbrev pub Text : Type 0
Text = List ℕ

abbrev pub codes : String → Text
codes String.[] = []
codes (String.◌∷◌ c s) = code c ∷ codes s

-- `s == t`
unfoldable pub text_eq : Text → Text → Bool
text_eq [] [] = true
text_eq (a ∷ s) (b ∷ t) = a == b && text_eq s t
text_eq _ _ = false

pub text_eq_sound : (s t : Text) → text_eq s t ≡ true → s ≡ t
unfolding text_eq
text_eq_sound [] [] h = refl
text_eq_sound [] (b ∷ t) h = cc
text_eq_sound (a ∷ s) [] h = cc
text_eq_sound (a ∷ s) (b ∷ t) h = ground (arith, text_eq_sound s t)

pub text_eq_refl : (s : Text) → text_eq s s ≡ true
unfolding text_eq
text_eq_refl [] = refl
text_eq_refl (a ∷ s) = ground (arith, text_eq_refl s)

pub text_eq_iff : (s t : Text) → (text_eq s t ≡ true) ↔ (s ≡ t)
text_eq_iff s t = (text_eq_sound s t, λ e. rw e (text_eq_refl t))

-- `s in xs` for a list or a set of texts
unfoldable pub elem : Text → List Text → Bool
elem s [] = false
elem s (t ∷ ts) = text_eq s t || elem s ts

-- `str.isspace`, over all of Unicode
unfoldable pub is_space : ℕ → Bool
is_space c =
    leb 9 c && leb c 13
    || leb 28 c && leb c 32
    || c == 0x85
    || c == 0xa0
    || c == 0x1680
    || leb 0x2000 c && leb c 0x200a
    || c == 0x2028
    || c == 0x2029
    || c == 0x202f
    || c == 0x205f
    || c == 0x3000

unfoldable pub lower_char : ℕ → ℕ
lower_char c = if leb b'A' c && leb c b'Z' then c + 32 else c

unfoldable pub upper_char : ℕ → ℕ
upper_char c = if leb b'a' c && leb c b'z' then c - 32 else c

abbrev pub lower : Text → Text
lower = map lower_char

abbrev pub upper : Text → Text
upper = map upper_char

unfoldable pub lstrip : Text → Text
lstrip [] = []
lstrip (c ∷ s) = let rest = lstrip s in if is_space c then rest else c ∷ s

unfoldable pub rstrip : Text → Text
rstrip [] = []
rstrip (c ∷ s) = let r = rstrip s in if is_empty r && is_space c then [] else c ∷ r

-- `s.strip()`
unfoldable pub strip : Text → Text
unfolding lstrip rstrip is_space
strip s = rstrip (lstrip s)

-- `s.replace(c, "")` for a single character
abbrev pub without : ℕ → Text → Text
without c = keep (λ x. not (x == c))

-- `s.split(c)` for a single character: the part up to the first `c`, and the other parts
unfoldable pub split_first : ℕ → Text → Text × List Text
split_first c [] = ([], [])
split_first c (x ∷ s) =
    let (part, parts) = split_first c s in if x == c then ([], part ∷ parts) else (x ∷ part, parts)

unfoldable pub split : ℕ → Text → List Text
unfolding split_first
split c s = let (part, parts) = split_first c s in part ∷ parts

unfoldable pub starts_with : Text → Text → Bool
starts_with [] s = true
starts_with (p ∷ ps) [] = false
starts_with (p ∷ ps) (c ∷ s) = p == c && starts_with ps s

-- `p in s` for texts
unfoldable pub contains : Text → Text → Bool
unfolding starts_with
contains p [] = is_empty p
contains p (c ∷ s) = starts_with p (c ∷ s) || contains p s

-- `s.endswith(p)`
unfoldable pub ends_with : Text → Text → Bool
unfolding text_eq
ends_with p [] = is_empty p
ends_with p (c ∷ s) = text_eq p (c ∷ s) || ends_with p s

unfoldable pub is_digit : ℕ → Bool
is_digit c = leb b'0' c && leb c b'9'

-- Facts that the components share.
pub lower_char_idem : (c : ℕ) → lower_char (lower_char c) ≡ lower_char c
unfolding lower_char
lower_char_idem c = ground arith

pub lower_idem : (s : Text) → lower (lower s) ≡ lower s
lower_idem [] = refl
lower_idem (c ∷ s) = cc (lower_char_idem c, lower_idem s)

pub upper_char-lower_char : (c : ℕ) → upper_char (lower_char c) ≡ upper_char c
unfolding lower_char upper_char
upper_char-lower_char c = ground arith

pub is_space-lower_char : (c : ℕ) → is_space (lower_char c) ≡ is_space c
unfolding is_space lower_char
is_space-lower_char c = elim (Bool-cases (leb b'A' c && leb c b'Z')) [
  | inl h ↦ ground arith
  | inr h ↦ rw h
]

-- Stripping twice strips no more.
pub rstrip_cons : (c : ℕ) (s : Text) → is_space c ≡ false → rstrip (c ∷ s) ≡ c ∷ rstrip s
unfolding rstrip
rstrip_cons c s h = ground arith

pub lstrip_cons : (c : ℕ) (s : Text) → is_space c ≡ false → lstrip (c ∷ s) ≡ c ∷ s
unfolding lstrip
lstrip_cons c s h = ground arith

rstrip_idem : (s : Text) → rstrip (rstrip s) ≡ rstrip s
unfolding rstrip
rstrip_idem [] = refl
rstrip_idem (c ∷ s) = ground (arith, rstrip_idem s)

lstrip_space : (c : ℕ) (s : Text) → is_space c ≡ true → lstrip (c ∷ s) ≡ lstrip s
unfolding lstrip
lstrip_space c s h = ground arith

both_idem : (s : Text) → rstrip (lstrip (rstrip (lstrip s))) ≡ rstrip (lstrip s)
both_idem [] = unfold lstrip rstrip in refl
both_idem (c ∷ s) = elim (Bool-cases (is_space c)) [
  | inl blank ↦ rw (lstrip_space c s blank) (both_idem s)
  | inr solid ↦ rw (
    lstrip_cons c s solid,
    rstrip_cons c s solid,
    lstrip_cons c (rstrip s) solid,
    rstrip_cons c (rstrip s) solid,
    rstrip_idem s,
  )
]

pub strip_idem : (s : Text) → strip (strip s) ≡ strip s
unfolding strip
strip_idem s = both_idem s

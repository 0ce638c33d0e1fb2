-- ===== src/Middleware/RateLimit/Window.antt =====
-- Lists of times, and how many of them fall into a window.
use mcp_sql_server.Common.{
  Bool, Bool-cases, Each, List, [], arith, count, inl, inr, leb, length, refl, true, ℕ, ◌&&◌, ◌++◌,
  ◌+◌, ◌∷◌, ◌≡◌, ◌≤◌,
}
use mcp_sql_server.Middleware.RateLimit.{prune, window}

-- `now - 60.0 <= t`
abbrev pub recent : ℕ → ℕ → Bool
recent now t = leb now (t + window)

-- Of the times, newest first, each had at most `limit` times in the 60 seconds up to it, itself
-- included, when it was added.
abbrev pub Spaced : ℕ → List ℕ → Type 0
Spaced limit [] = Unit {0}
Spaced limit (t ∷ ts) = (count (recent t) (t ∷ ts) ≤ limit) × Spaced limit ts

-- Between two times, both included.
abbrev pub within : ℕ → ℕ → ℕ → Bool
within a b t = leb a t && leb t b

count_mono :
    (p q : ℕ → Bool) (ts : List ℕ) → ((t : ℕ) → p t ≡ true → q t ≡ true) → count p ts ≤ count q ts
unfolding count
count_mono p q [] h = omega arith
count_mono p q (t ∷ ts) h = ground (arith, count_mono p q ts h, h t)

-- So any 60 seconds whatever hold at most `limit` of them.
pub Spaced-window :
    (limit a : ℕ) (ts : List ℕ) → Spaced limit ts → count (within a (a + window)) ts ≤ limit
unfolding count
Spaced-window limit a [] s = omega arith
Spaced-window limit a (t ∷ ts) s = elim (Bool-cases (leb t (a + window))) [
  | inl inside ↦
      let mono = count_mono (within a (a + window)) (recent t) (t ∷ ts) λ e h. ground arith in
      omega (arith, mono, s.0)
  | inr outside ↦ ground (arith, Spaced-window limit a ts s.1)
]

pub count-append : (p : ℕ → Bool) (xs : List ℕ) (t : ℕ) → count p (xs ++ t ∷ []) ≡ count p (t ∷ xs)
unfolding count
count-append p [] t = refl
count-append p (x ∷ xs) t = ground (arith, count-append p xs t)

-- Pruning drops nothing that is recent now or later.
pub count-prune :
    (m n : ℕ) (ts : List ℕ) → m ≤ n → count (recent n) (prune m ts) ≡ count (recent n) ts
unfolding count prune
count-prune m n [] h = refl
count-prune m n (t ∷ ts) h = ground (arith, count-prune m n ts)

-- Oldest first, and none after `p`.
abbrev pub Ascends : ℕ → List ℕ → Type 0
Ascends p [] = Unit {0}
Ascends p (t ∷ ts) = (t ≤ p) × Each (λ u. t ≤ u) ts × Ascends p ts

all_recent :
    (now t : ℕ) (ts : List ℕ)
    → now ≤ t + window
    → Each (λ u. t ≤ u) ts
    → count (recent now) ts ≡ length ts
unfolding count
all_recent now t [] h e = refl
all_recent now t (u ∷ ts) h e = ground (arith, all_recent now t ts h e.1)

-- In a deque in order, pruning leaves exactly what is recent.
pub length-prune :
    (p now : ℕ) (ts : List ℕ) → Ascends p ts → length (prune now ts) ≡ count (recent now) ts
unfolding prune count
length-prune p now [] h = refl
length-prune p now (t ∷ ts) h = ground (arith, length-prune p now ts h.2, all_recent now t ts)

pub Ascends-mono : (p q : ℕ) (xs : List ℕ) → p ≤ q → Ascends p xs → Ascends q xs
Ascends-mono p q [] le a = tt
Ascends-mono p q (x ∷ xs) le a = (omega arith, a.1, Ascends-mono p q xs le a.2)

pub prune-Ascends : (p q now : ℕ) (ts : List ℕ) → p ≤ q → Ascends p ts → Ascends q (prune now ts)
unfolding prune
prune-Ascends p q now [] le h = tt
prune-Ascends p q now (t ∷ ts) le h =
    ground (arith, prune-Ascends p q now ts le h.2, Ascends-mono p q ts le h.2)

pub append-Ascends : (p : ℕ) (ts : List ℕ) → Ascends p ts → Ascends p (ts ++ p ∷ [])
append-Ascends p [] h = (omega arith, tt, tt)
append-Ascends p (t ∷ ts) h = (h.0, after ts h.0 h.1, append-Ascends p ts h.2)
  where
    after : (xs : List ℕ) → t ≤ p → Each (λ u. t ≤ u) xs → Each (λ u. t ≤ u) (xs ++ p ∷ [])
    after [] le e = (le, tt)
    after (x ∷ xs) le e = (e.0, after xs le e.1)

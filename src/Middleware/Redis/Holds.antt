-- ===== src/Middleware/Redis/Holds.antt =====
-- A sorted set against the log of what was added to it: what each command keeps.
use mcp_sql_server.Middleware.Redis.Sets.{Entry, in_range, is_member}
use mcp_sql_server.Common.{
  Bool, List, Text, [], arith, count, elem, false, inl, inr, keep, length, ltb, not, refl, set,
  sub_ℕ, sym, true, ℕ, ◌+◌, ◌∙◌, ◌∷◌, ◌≡◌, ◌≤◌, ◌⊎◌,
}

-- Added less than `w` before.
abbrev pub live : ℕ → ℕ → Entry → Bool
live w now (score, _) = ltb now (score + w)

abbrev pub later_than : ℕ → Entry → Bool
later_than p (score, _) = ltb p score

-- From `p` on, the set has what is live of the log; it is due to be deleted only when nothing is
-- live; and it has nothing of the future, and no member but the used ones.
pub record Holds (w p : ℕ) (set : List Entry) (due : ℕ) (used : List Text) (log : List Entry)
    : Type 0 where
  pub agrees : (n : ℕ) → p ≤ n → count (live w n) set ≡ count (live w n) log
  pub kept_long : count (live w due) set ≡ 0
  pub past : count (later_than p) set ≡ 0
  pub known : (m : Text) → elem m used ≡ false → count (is_member m) set ≡ 0

pub count_none :
    (p q : Entry → Bool) (xs : List Entry)
    → ((e : Entry) → p e ≡ true → q e ≡ true)
    → count q xs ≡ 0
    → count p xs ≡ 0
unfolding count
count_none p q [] h none_q = refl
count_none p q (x ∷ xs) h none_q = ground (arith, count_none p q xs h, h x)

pub count-keep-zero :
    (p q : Entry → Bool) (xs : List Entry) → count p xs ≡ 0 → count p (keep q xs) ≡ 0
unfolding count keep
count-keep-zero p q [] h = refl
count-keep-zero p q (x ∷ xs) h = ground (arith, count-keep-zero p q xs)

-- What the script removes is what is no longer live.
abbrev pub unexpired : ℕ → ℕ → Entry → Bool
unexpired w now e = not (in_range 0 (sub_ℕ now w) e)

pub count-unexpired :
    (w now n : ℕ) (xs : List Entry)
    → now ≤ n
    → count (live w n) (keep (unexpired w now) xs) ≡ count (live w n) xs
unfolding count keep
count-unexpired w now n [] h = refl
count-unexpired w now n (x ∷ xs) h = ground (arith, count-unexpired w now n xs)

pub length-unexpired :
    (w now : ℕ) (xs : List Entry) → length (keep (unexpired w now) xs) ≡ count (live w now) xs
unfolding count keep
length-unexpired w now [] = refl
length-unexpired w now (x ∷ xs) = ground (arith, length-unexpired w now xs)

module _ (w p : ℕ) (set : List Entry) (due : ℕ) (used : List Text) (log : List Entry)
    (h : Holds w p set due used log) where
  pub Holds-later : (now : ℕ) → p ≤ now → Holds w now set due used log
  Holds-later now le = record {
    agrees = λ n later. h.agrees n (omega arith);
    kept_long = h.kept_long;
    past = count_none (later_than now) (later_than p) set (λ e t. ground arith) h.past;
    known = h.known;
  }

  pub Holds-deleted : (now due' : ℕ) → p ≤ now → due ≤ now → Holds w now [] due' used log
  unfolding count
  Holds-deleted now due' le over = record {
    agrees = λ n later. sym (
        sym (h.agrees n (omega arith))
        ∙ count_none (live w n) (live w due) set (λ e t. ground arith) h.kept_long);
    kept_long = refl;
    past = refl;
    known = λ m fresh. refl;
  }

  pub Holds-pruned : Holds w p (keep (unexpired w p) set) due used log
  Holds-pruned = record {
    agrees = λ n later. count-unexpired w p n set later ∙ h.agrees n later;
    kept_long = count-keep-zero (live w due) (unexpired w p) set h.kept_long;
    past = count-keep-zero (later_than p) (unexpired w p) set h.past;
    known = λ m fresh. count-keep-zero (is_member m) (unexpired w p) set (h.known m fresh);
  }

  pub Holds-used : (m : Text) → Holds w p set due (m ∷ used) log
  unfolding elem
  Holds-used m = record {
    agrees = h.agrees;
    kept_long = h.kept_long;
    past = h.past;
    known = λ n fresh. h.known n (ground arith);
  }

  pub Holds-added :
      (m : Text) (set' : List Entry) (due' : ℕ)
      → ((q : Entry → Bool) → count q set' ≡ count q ((p, m) ∷ set))
      → p + w ≤ due'
      → Holds w p set' due' (m ∷ used) ((p, m) ∷ log)
  unfolding elem count
  Holds-added m set' due' counts long = record {
    agrees = λ n later. ground (arith, counts (live w n), h.agrees n later);
    kept_long = ground (
      arith,
      counts (live w due'),
      count_none (live w due') (later_than p) set (λ e t. ground arith) h.past,
    );
    past = ground (arith, counts (later_than p), h.past);
    known = λ n fresh. ground (arith, counts (is_member n), h.known n);
  }

-- An emptied set may come back with any time of deletion.
pub Holds-emptied :
    (w p : ℕ) (set : List Entry) (due due' : ℕ) (used : List Text) (log : List Entry)
    → Holds w p set due used log
    → (due' ≡ due) ⊎ (set ≡ [])
    → Holds w p set due' used log
Holds-emptied w p set due due' used log h (inl same) = rw same h
Holds-emptied w p set due due' used log h (inr gone) = record {
  agrees = h.agrees;
  kept_long = rw gone (unfold count in refl);
  past = h.past;
  known = h.known;
}

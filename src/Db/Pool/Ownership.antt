-- ===== src/Db/Pool/Ownership.antt =====
-- Who has which connection, in every interleaving.
use mcp_sql_server.Common.{
  Bool, List, [], ap, arith, count, get_elem?, if◌then◌else◌, inr, refl, some, suc, total,
  total-replicate_zero, total-set, zero, ℕ, ℕ_discrete, ℤ, ◌++◌, ◌+◌, ◌-◌, ◌==◌, ◌∷◌, ◌≡◌, ◌≢◌, ◌≤◌,
  ◌⊎◌,
}
use mcp_sql_server.Db.Pool.Threads.{
  Event, Pc, Reach, Step, System, act, ask, asked, asking, check, connect, drop_it, dropping, enter,
  here, holding, leave, move, next, opening, outside, probe, probing, record_it, registering,
  returning, start, store, storing,
}
use mcp_sql_server.Db.Pool.{Found, Pool, create_new, full, remove_first, reuse, take_available}

-- How often a connection stands in a list.
abbrev pub occurs : ℕ → List ℕ → ℕ
occurs c = count (λ x. x == c)

unfoldable pub one_if : ℕ → ℕ → ℕ
one_if a c = if a == c then 1 else 0

-- The thread has the connection: 1 or 0.
unfoldable pub has : ℕ → Pc → ℕ
unfolding one_if
has c (probing a) = one_if a c
has c (dropping a) = one_if a c
has c (registering a) = one_if a c
has c (holding a) = one_if a c
has c (returning a _) = one_if a c
has c (storing a _) = one_if a c
has c _ = 0

-- The thread has it, and the pool lists it as in use.
unfoldable pub listed : ℕ → Pc → ℕ
unfolding one_if
listed c (probing a) = one_if a c
listed c (dropping a) = one_if a c
listed c (holding a) = one_if a c
listed c (returning a _) = one_if a c
listed c (storing a _) = one_if a c
listed c _ = 0

occurs-append : (c a : ℕ) (xs : List ℕ) → occurs c (xs ++ a ∷ []) ≡ occurs c xs + one_if a c
unfolding count one_if
occurs-append c a [] = ground arith
occurs-append c a (x ∷ xs) = ground (arith, occurs-append c a xs)

occurs-remove_first :
    (c a : ℕ) (xs : List ℕ) → occurs c (remove_first a xs) ≡ occurs c xs - one_if a c
unfolding count remove_first one_if
occurs-remove_first c a [] = omega arith
occurs-remove_first c a (x ∷ xs) = ground (arith, occurs-remove_first c a xs)

-- What one step of a thread does to a connection.
record Moves (c : ℕ) (p : Pool) (n : ℕ) (pc : Pc) (p' : Pool) (n' : ℕ) (pc' : Pc) : Type 0 where
  pub older : n ≤ n'
  pub newer : n' ≤ n + 1
  pub kept :
      occurs c p'.available + has c pc'
      ≤ occurs c p.available + has c pc + (if n == c then n' - n else 0)
  pub listing : occurs c p'.in_use + listed c pc ≡ occurs c p.in_use + listed c pc'

asked-Moves :
    (c n : ℕ) (late : Bool) (p : Pool) (f : Found) (q p' : Pool) (n' : ℕ) (pc' : Pc)
    → asked late q n f ≡ some (p', n', pc')
    → (f ≡ full) × (q ≡ p)
      ⊎ (f ≡ create_new) × (q ≡ p)
      ⊎ ((a : ℕ) × (f ≡ reuse a)
          × (occurs c p.available ≡ one_if a c + occurs c q.available)
          × (occurs c q.in_use ≡ occurs c p.in_use + one_if a c))
    → Moves c p n asking p' n' pc'
unfolding asked has listed
asked-Moves c n late p f q p' n' pc' h cases = ground arith

take-cases :
    (pool_max : ℤ) (c : ℕ) (p : Pool)
    → let (f, q) = take_available pool_max p in
      (f ≡ full) × (q ≡ p)
      ⊎ (f ≡ create_new) × (q ≡ p)
      ⊎ ((a : ℕ) × (f ≡ reuse a)
          × (occurs c p.available ≡ one_if a c + occurs c q.available)
          × (occurs c q.in_use ≡ occurs c p.in_use + one_if a c))
unfolding take_available count one_if
take-cases m c p = first_of p.available refl
  where
    first_of :
        (xs : List ℕ)
        → p.available ≡ xs
        → let (f, q) = take_available m p in
          (f ≡ full) × (q ≡ p)
          ⊎ (f ≡ create_new) × (q ≡ p)
          ⊎ ((a : ℕ) × (f ≡ reuse a)
              × (occurs c p.available ≡ one_if a c + occurs c q.available)
              × (occurs c q.in_use ≡ occurs c p.in_use + one_if a c))
    first_of [] e = ground arith
    first_of (a ∷ rest) e =
        inr (inr (a, ground arith, ground arith, ground (arith, occurs-append c a p.in_use)))

act-Moves :
    (pool_max : ℤ) (c : ℕ) (p : Pool) (n : ℕ) (pc : Pc) (e : Event) (p' : Pool) (n' : ℕ) (pc' : Pc)
    → listed c pc ≤ occurs c p.in_use
    → act pool_max p n pc e ≡ some (p', n', pc')
    → Moves c p n pc p' n' pc'
unfolding act has listed count
act-Moves m c p n outside enter p' n' pc' l h = ground arith
act-Moves m c p n asking (ask late) p' n' pc' l h =
    let (f, q) = take_available m p in asked-Moves c n late p f q p' n' pc' h (take-cases m c p)
act-Moves m c p n (probing a) (probe usable) p' n' pc' l h = ground arith
act-Moves m c p n (dropping a) drop_it p' n' pc' l h =
    ground (arith, occurs-remove_first c a p.in_use)
act-Moves m c p n opening (connect made) p' n' pc' l h = ground arith
act-Moves m c p n (registering a) record_it p' n' pc' l h =
    ground (arith, occurs-append c a p.in_use)
act-Moves m c p n (holding a) (leave raised) p' n' pc' l h = ground arith
act-Moves m c p n (returning a had_error) (check usable) p' n' pc' l h = ground arith
act-Moves m c p n (storing a should_discard) (store set_it) p' n' pc' l h =
    ground (arith, occurs-remove_first c a p.in_use)
act-Moves m c p n _ _ p' n' pc' l h = cc

pub record Owned (c : ℕ) (s : System) : Type 0 where
  pub single : occurs c s.pool.available + total (has c) s.threads ≤ 1
  pub fresh : s.next_conn ≤ c → occurs c s.pool.available + total (has c) s.threads ≡ 0
  pub listing : occurs c s.pool.in_use ≡ total (listed c) s.threads

pub weight-le-total :
    (w : Pc → ℕ) (ts : List Pc) (i : ℕ) (pc : Pc) → get_elem? ts i ≡ some pc → w pc ≤ total w ts
unfolding total
weight-le-total w [] i pc h = cc
weight-le-total w (t ∷ ts) zero pc h = ground arith
weight-le-total w (t ∷ ts) (suc i) pc h = omega (arith, weight-le-total w ts i pc h)

weights-le-total :
    (w : Pc → ℕ) (ts : List Pc) (i j : ℕ) (x y : Pc)
    → get_elem? ts i ≡ some x
    → get_elem? ts j ≡ some y
    → i ≢ j
    → w x + w y ≤ total w ts
unfolding total
weights-le-total w [] i j x y h k ne = cc
weights-le-total w (t ∷ ts) zero zero x y h k ne = absurd (ne refl)
weights-le-total w (t ∷ ts) zero (suc j) x y h k ne = ground (arith, weight-le-total w ts j y k)
weights-le-total w (t ∷ ts) (suc i) zero x y h k ne = ground (arith, weight-le-total w ts i x h)
weights-le-total w (t ∷ ts) (suc i) (suc j) x y h k ne =
    omega (arith, weights-le-total w ts i j x y h k (λ e. ne (ap suc e)))

Step-Owned : (pool_max : ℤ) (c : ℕ) {s t : System} → Step pool_max s t → Owned c s → Owned c t
Step-Owned m c {s} (move i pc e p n pc' at did) own =
    let there = weight-le-total (listed c) s.threads i pc at in
    let moved =
      act-Moves m c s.pool s.next_conn pc e p n pc' (omega (arith, there, own.listing)) did in
    let has_sum = total-set (has c) s.threads i pc pc' at in
    let listed_sum = total-set (listed c) s.threads i pc pc' at in
    let none_yet = own.fresh in
    record {
      single = ground (arith, moved, has_sum, own.single, none_yet);
      fresh = λ late. ground (arith, moved, has_sum, none_yet, late);
      listing = omega (arith, moved.listing, listed_sum, own.listing);
    }

start-Owned : (c k : ℕ) → Owned c (start k)
unfolding count has listed
start-Owned c k = record {
  single = omega (arith, total-replicate_zero (has c) k outside refl);
  fresh = λ _. omega (arith, total-replicate_zero (has c) k outside refl);
  listing = omega (arith, total-replicate_zero (listed c) k outside refl);
}

pub Reach-Owned : {m : ℤ} {k : ℕ} {s : System} (c : ℕ) → Reach m k s → Owned c s
Reach-Owned {k = k} c here = start-Owned c k
Reach-Owned {m} c (next r st) = Step-Owned m c st (Reach-Owned c r)

-- In every interleaving of any number of threads, no connection is with two threads at once, from
-- the moment that the pool hands it out or creates it to the moment that it is given back or
-- discarded; and while a thread has it, it is not among the available ones.
pub exclusive :
    {m : ℤ} {k : ℕ} {s : System} (c i j : ℕ) (x y : Pc)
    → Reach m k s
    → get_elem? s.threads i ≡ some x
    → get_elem? s.threads j ≡ some y
    → has c x ≡ 1
    → has c y ≡ 1
    → (i ≡ j) × (occurs c s.pool.available ≡ 0)
exclusive {s = s} c i j x y r at_i at_j hx hy =
    let own = Reach-Owned c r in
    let one = weight-le-total (has c) s.threads i x at_i in
    (
      elim (ℕ_discrete i j) [
        | yes same ↦ same
        | no ne ↦
            absurd
              (omega (arith, own.single, weights-le-total (has c) s.threads i j x y at_i at_j ne))
      ],
      omega (arith, own.single, one),
    )

-- The pool's `in_use` is exactly the connections that the threads have and that the pool has
-- recorded, each as often as they have it: none is forgotten there, and none stays.
pub in_use_exact :
    {m : ℤ} {k : ℕ} {s : System} (c : ℕ)
    → Reach m k s
    → occurs c s.pool.in_use ≡ total (listed c) s.threads
in_use_exact c r = (Reach-Owned c r).listing

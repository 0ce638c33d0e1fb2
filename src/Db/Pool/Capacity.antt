-- ===== src/Db/Pool/Capacity.antt =====
-- How many connections a pool has, and what its counters say, in every interleaving.
use mcp_sql_server.Common.{
  Bool, List, [], arith, count, inr, length, length-append, length-replicate, length-set, max, refl,
  set, some, total, total-replicate_zero, total-set, ℕ, ℤ, ◌+◌, ◌<◌, ◌∷◌, ◌≡◌, ◌≤◌, ◌⊎◌,
}
use mcp_sql_server.Db.Pool.Ownership.{Owned, Reach-Owned, listed, occurs, one_if, weight-le-total}
use mcp_sql_server.Db.Pool.Threads.{
  Event, Pc, Reach, Step, System, act, ask, asked, asking, check, connect, drop_it, dropping, enter,
  here, holding, leave, move, next, opening, outside, probe, probing, record_it, registering,
  returning, start, store, storing,
}
use mcp_sql_server.Db.Pool.{
  Found, Pool, create_new, full, pool_cap, pool_size, remove_first, reuse, take_available,
}

-- The thread has found room for a new connection that the pool does not list yet.
pub pending : Pc → ℕ
pending opening = 1
pending (registering _) = 1
pending _ = 0

length-remove_first :
    (a : ℕ) (xs : List ℕ) → 0 < occurs a xs → length (remove_first a xs) + 1 ≡ length xs
unfolding count remove_first
length-remove_first a [] h = absurd (omega arith)
length-remove_first a (x ∷ xs) h = ground (arith, length-remove_first a xs)

length-remove_first-le : (a : ℕ) (xs : List ℕ) → length (remove_first a xs) ≤ length xs
unfolding remove_first
length-remove_first-le a [] = omega arith
length-remove_first-le a (x ∷ xs) = ground (arith, length-remove_first-le a xs)

-- What one step of a thread does to the sizes and to the counters.
record Sizes (cap : ℕ) (p : Pool) (pc : Pc) (p' : Pool) (pc' : Pc) : Type 0 where
  pub idle : length p'.available ≤ max cap (length p.available)
  pub size :
      (pool_size p' + pending pc' ≤ pool_size p + pending pc)
      ⊎ (pool_size p < cap) × (pool_size p' ≡ pool_size p) × (pending pc ≡ 0) × (pending pc' ≡ 1)
  pub counters :
      p'.created_total + pool_size p + p.discarded_total
      ≡ p.created_total + pool_size p' + p'.discarded_total

asked-Sizes :
    (cap n : ℕ) (late : Bool) (p : Pool) (f : Found) (q p' : Pool) (n' : ℕ) (pc' : Pc)
    → asked late q n f ≡ some (p', n', pc')
    → (f ≡ full) × (q ≡ p)
      ⊎ (f ≡ create_new) × (q ≡ p) × (pool_size p < cap)
      ⊎ ((a : ℕ) × (f ≡ reuse a)
          × (length p.available ≡ length q.available + 1)
          × (length q.in_use ≡ length p.in_use + 1)
          × (q.created_total ≡ p.created_total)
          × (q.discarded_total ≡ p.discarded_total))
    → Sizes cap p asking p' pc'
unfolding asked pending
asked-Sizes cap n late p f q p' n' pc' h cases = ground arith

take-sizes :
    (m : ℤ) (p : Pool) (xs : List ℕ)
    → p.available ≡ xs
    → let (f, q) = take_available m p in
      (f ≡ full) × (q ≡ p)
      ⊎ (f ≡ create_new) × (q ≡ p) × (pool_size p < pool_cap m)
      ⊎ ((a : ℕ) × (f ≡ reuse a)
          × (length p.available ≡ length q.available + 1)
          × (length q.in_use ≡ length p.in_use + 1)
          × (q.created_total ≡ p.created_total)
          × (q.discarded_total ≡ p.discarded_total))
unfolding take_available
take-sizes m p [] e = ground arith
take-sizes m p (a ∷ rest) e = inr (
    inr (
      a,
      ground arith,
      ground arith,
      ground (arith, length-append p.in_use (a ∷ [])),
      ground arith,
      ground arith,
    ))

act-Sizes :
    (m : ℤ) (p : Pool) (n : ℕ) (pc : Pc) (e : Event) (p' : Pool) (n' : ℕ) (pc' : Pc)
    → ((c : ℕ) → listed c pc ≤ occurs c p.in_use)
    → act m p n pc e ≡ some (p', n', pc')
    → Sizes (pool_cap m) p pc p' pc'
unfolding act pending listed one_if
act-Sizes m p n outside enter p' n' pc' l h = ground arith
act-Sizes m p n asking (ask late) p' n' pc' l h =
    let (f, q) = take_available m p in
    asked-Sizes (pool_cap m) n late p f q p' n' pc' h (take-sizes m p p.available refl)
act-Sizes m p n (probing a) (probe usable) p' n' pc' l h = ground arith
act-Sizes m p n (dropping a) drop_it p' n' pc' l h =
    ground (arith, length-remove_first a p.in_use, l a)
act-Sizes m p n opening (connect made) p' n' pc' l h = ground arith
act-Sizes m p n (registering a) record_it p' n' pc' l h =
    ground (arith, length-append p.in_use (a ∷ []))
act-Sizes m p n (holding a) (leave raised) p' n' pc' l h = ground arith
act-Sizes m p n (returning a had_error) (check usable) p' n' pc' l h = ground arith
act-Sizes m p n (storing a should_discard) (store set_it) p' n' pc' l h =
    ground (arith, length-remove_first a p.in_use, l a)
act-Sizes m p n _ _ p' n' pc' l h = cc

record Bounds (m : ℤ) (k : ℕ) (s : System) : Type 0 where
  pub threads : length s.threads ≡ k
  pub idle : length s.pool.available ≤ pool_cap m
  pub size :
      (pool_size s.pool + total pending s.threads < pool_cap m + k)
      ⊎ (pool_size s.pool + total pending s.threads ≡ 0)
  pub counters : s.pool.created_total ≡ pool_size s.pool + s.pool.discarded_total

total-pending-le : (ts : List Pc) → total pending ts ≤ length ts
unfolding total pending
total-pending-le [] = omega arith
total-pending-le (t ∷ ts) = ground (arith, total-pending-le ts)

Step-Bounds :
    {m : ℤ} {k : ℕ} {s t : System}
    → ((c : ℕ) → Owned c s)
    → Step m s t
    → Bounds m k s
    → Bounds m k t
Step-Bounds {m} {k} {s} own (move i pc e p n pc' at did) b =
    let there = λ (c : ℕ). weight-le-total (listed c) s.threads i pc at in
    let sizes =
      act-Sizes m s.pool s.next_conn pc e p n pc' (λ c. omega (arith, there c, (own c).listing))
        did in
    let sum = total-set pending s.threads i pc pc' at in
    let few = total-pending-le (set s.threads i pc') in
    let same = length-set s.threads i pc' in
    let one = weight-le-total (λ _. 1) s.threads i pc at in
    record {
      threads = omega (arith, same, b.threads);
      idle = omega (arith, sizes.idle, b.idle);
      size = ground (arith, sizes.size, sum, few, same, b.threads, b.size);
      counters = omega (arith, sizes.counters, b.counters);
    }

start-Bounds : (m : ℤ) (k : ℕ) → Bounds m k (start k)
unfolding pending
start-Bounds m k = record {
  threads = length-replicate k outside;
  idle = omega arith;
  size = inr (omega (arith, total-replicate_zero pending k outside refl));
  counters = omega arith;
}

Reach-Bounds : {m : ℤ} {k : ℕ} {s : System} → Reach m k s → Bounds m k s
Reach-Bounds {m} {k} here = start-Bounds m k
Reach-Bounds (next r st) = Step-Bounds (λ c. Reach-Owned c r) st (Reach-Bounds r)

-- With `k` threads, in every interleaving: at most `max(1, pool_max)` connections are available,
-- and fewer than `max(1, pool_max) + k` are available, in use or about to be recorded. So one
-- thread alone never has the pool exceed `max(1, pool_max)`.
pub capacity :
    {m : ℤ} {k : ℕ} {s : System}
    → Reach m k s
    → (length s.pool.available ≤ pool_cap m)
      × (pool_size s.pool + total pending s.threads < pool_cap m + k)
capacity {m} r = let b = Reach-Bounds r in (b.idle, ground (arith, b.size))

-- Every connection that the pool has created is available, in use or discarded, and counted once:
-- the counters of the diagnostics never drift.
counters_exact :
    {m : ℤ} {k : ℕ} {s : System}
    → Reach m k s
    → s.pool.created_total ≡ pool_size s.pool + s.pool.discarded_total
counters_exact r = (Reach-Bounds r).counters

-- ===== src/Db/Pool/Alone.antt =====
-- What a thread that runs alone gets from the pool, and what it leaves there.
use mcp_sql_server.Common.{
  Bool, Bool-cases, Each, Error, List, Option, Outcome, Text, [], arith, count, false,
  if◌then◌else◌, inl, inr, length, ltb, none, not, ok, raise, refl, some, suc, true, ℕ, ℤ, ◌++◌,
  ◌+◌, ◌==◌, ◌>>=◌, ◌||◌, ◌∷◌, ◌≡◌, ◌⊎◌,
}
use mcp_sql_server.Db.Pool.Sequential.{
  Apart, Driver, acquire_connection, acquire_loop-acquired, acquire_timeout, acquired, connect,
  raised, record_new, release_connection, remove_first_last, uses_pool, with_acquired,
}
use mcp_sql_server.Models.{SqlInstanceConfig}
use mcp_sql_server.Db.Pool.{Pool, give_back, pool_cap, remove_first, remove_in_use_connection}

-- Without competition `_acquire_connection` always ends. If the pool is used, the result is the
-- right-most available connection that answers, all to the right of it discarded and counted as
-- such; if none answers, a new one where fewer than `max(1, pool_max)` are in use, and else
-- TimeoutError. With pooling off or a database override it is a new connection, and the pool is
-- left alone.
pub acquire_alone :
    (d : Driver) (inst : SqlInstanceConfig) (database_override : Option Text) (p : Pool)
    → Apart d p
    → acquire_connection d inst database_override p ≡ (
        if uses_pool inst database_override
        then (let (r, p') = acquired d inst p p.available in
            some (r >>= (λ conn. ok (conn, true)), p'))
        else some (d.connect_new database_override >>= (λ conn. ok (conn, false)), p))
unfolding acquire_connection
acquire_alone d inst o p apart = ground (
  arith,
  acquire_loop-acquired p.available (suc (length p.available)) d inst p refl (omega arith) apart.0,
)

-- An acquisition adds its connection to those in use, or raises and adds none.
abbrev pub Adds : Pool → Outcome ℕ → Pool → Type 0
Adds p r p' =
    ((c : ℕ) × (r ≡ ok c) × (p'.in_use ≡ p.in_use ++ c ∷ []) × (count (λ x. x == c) p.in_use ≡ 0))
    ⊎ ((e : Error) × (r ≡ raise e) × (p'.in_use ≡ p.in_use))

record_new-Adds :
    (p : Pool) (o : Outcome ℕ)
    → ((c : ℕ) → o ≡ ok c → count (λ x. x == c) p.in_use ≡ 0)
    → Adds p (record_new p o).0 (record_new p o).1
unfolding record_new
record_new-Adds p (ok c) new = inl (c, refl, refl, new c refl)
record_new-Adds p (raise e) new = inr (e, refl, refl)

pub acquired-Adds :
    (d : Driver) (inst : SqlInstanceConfig) (p : Pool) (xs : List ℕ)
    → Each (λ c. count (λ x. x == c) p.in_use ≡ 0) xs
    → ((c : ℕ) → d.connect_new none ≡ ok c → count (λ x. x == c) p.in_use ≡ 0)
    → Adds p (acquired d inst p xs).0 (acquired d inst p xs).1
unfolding acquired
acquired-Adds d inst p [] apart new =
    elim (Bool-cases (ltb (length p.in_use) (pool_cap inst.pool_max))) [
      | inl room ↦ rw room (record_new-Adds p (d.connect_new none) new)
      | inr none_left ↦ rw none_left (inr (acquire_timeout inst, refl, refl))
    ]
acquired-Adds d inst p (c ∷ rest) apart new =
    let q = record p {
      available = rest;
      reused_total = p.reused_total + 1;
      discarded_total = p.discarded_total + 1;
    } in
    elim (Bool-cases (d.usable c)) [
      | inl good ↦ rw good (inl (c, refl, refl, apart.0))
      | inr bad ↦ rw bad (acquired-Adds d inst q rest apart.1 new)
    ]

give_back-in_use :
    (m : ℤ) (p : Pool) (c : ℕ) (should_discard set_it : Bool)
    → (give_back m p c should_discard set_it).1.in_use ≡ remove_first c p.in_use
unfolding give_back remove_in_use_connection
give_back-in_use m p c should_discard set_it = ground arith

pub pooled_in_use :
    {A : Type 0} (d : Driver) (inst : SqlInstanceConfig) (body : ℕ → Outcome A) (p : Pool)
    (r : Outcome ℕ) (q : Pool)
    → Adds p r q
    → (with_acquired d inst body (r >>= (λ conn. ok (conn, true)), q)).1.in_use ≡ p.in_use
unfolding with_acquired release_connection
pooled_in_use d inst body p (raise e) q (inl (c, got, _, _)) = cc
pooled_in_use d inst body p (raise e) q (inr (_, _, same)) = same
pooled_in_use d inst body p (ok c) q (inr (_, failed, _)) = cc
pooled_in_use d inst body p (ok c) q (inl (c', got, listed, absent)) =
    let discards = raised (body c) || not (d.usable_after c) in
    ground (
      arith,
      give_back-in_use inst.pool_max q c discards (d.autocommit_set c),
      remove_first_last c p.in_use,
      got,
      listed,
      absent,
    )

pub plain_in_use :
    {A : Type 0} (d : Driver) (inst : SqlInstanceConfig) (body : ℕ → Outcome A) (p : Pool)
    (r : Outcome ℕ)
    → (with_acquired d inst body (r >>= (λ conn. ok (conn, false)), p)).1.in_use ≡ p.in_use
unfolding with_acquired
plain_in_use d inst body p (ok c) = refl
plain_in_use d inst body p (raise e) = refl

-- `with connect(...)` leaks no connection: it always ends, and whatever the body and the driver do,
-- exceptions included, the connections in use afterwards are those that were in use before, in
-- their order.
pub connect_no_leak :
    {A : Type 0} (d : Driver) (inst : SqlInstanceConfig) (database_override : Option Text)
    (body : ℕ → Outcome A) (p : Pool)
    → Apart d p
    → (r : Outcome A) × (p' : Pool) × (connect d inst database_override body p ≡ some (r, p'))
      × (p'.in_use ≡ p.in_use)
unfolding connect
connect_no_leak d inst o body p apart = elim (Bool-cases (uses_pool inst o)) [
  | inl pooled ↦
      let (r, q) = acquired d inst p p.available in
      let (s, left) = with_acquired d inst body (r >>= (λ conn. ok (conn, true)), q) in
      (
        s,
        left,
        rw (acquire_alone d inst o p apart, pooled),
        pooled_in_use d inst body p r q (acquired-Adds d inst p p.available apart.0 apart.1),
      )
  | inr plain ↦
      let r = d.connect_new o >>= (λ conn. ok (conn, false)) in
      let (s, left) = with_acquired d inst body (r, p) in
      (
        s,
        left,
        rw (acquire_alone d inst o p apart, plain),
        plain_in_use d inst body p (d.connect_new o),
      )
]

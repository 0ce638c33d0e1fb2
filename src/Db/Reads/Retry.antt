-- ===== src/Db/Reads/Retry.antt =====
-- What a read comes to, with its retry.
use mcp_sql_server.Db.Reads.{
  after_attempt, attempts, can_retry, is_transient_read_error, run_read_operation,
}
use mcp_sql_server.Db.Pool.Alone.{Adds, acquire_alone, acquired-Adds, plain_in_use, pooled_in_use}
use mcp_sql_server.Db.Pool.Sequential.{
  Apart, Driver, acquired, connect, raised, record_new, release_connection, uses_pool,
  with_acquired,
}
use mcp_sql_server.Db.Pool.{Pool, give_back, pool_cap, register, remove_in_use_connection}
use mcp_sql_server.Models.{SqlInstanceConfig}
use mcp_sql_server.Common.{
  Bool, Bool-cases, Each, List, Option, Outcome, Text, [], ap, arith, count, false, inl, inr,
  length, ltb, none, not, ok, raise, refl, some, true, ℕ, ℤ, ◌+◌, ◌==◌, ◌>>=◌, ◌||◌, ◌∙◌, ◌∷◌, ◌≡◌,
  ◌⊎◌,
}

-- The available connections of a pool are apart from these.
abbrev IdleApart : List ℕ → Pool → Type 0
IdleApart used p = Each (λ c. count (λ x. x == c) used ≡ 0) p.available

recorded-IdleApart :
    (used : List ℕ) (p : Pool) (o : Outcome ℕ)
    → IdleApart used p
    → IdleApart used (record_new p o).1
unfolding record_new register
recorded-IdleApart used p (ok c) apart = apart
recorded-IdleApart used p (raise e) apart = apart

acquired-IdleApart :
    (used : List ℕ) (d : Driver) (inst : SqlInstanceConfig) (p : Pool) (xs : List ℕ)
    → p.available ≡ xs
    → IdleApart used p
    → IdleApart used (acquired d inst p xs).1
unfolding acquired
acquired-IdleApart used d inst p [] e apart =
    elim (Bool-cases (ltb (length p.in_use) (pool_cap inst.pool_max))) [
      | inl room ↦ rw room (recorded-IdleApart used p (d.connect_new none) apart)
      | inr none_left ↦ rw none_left apart
    ]
acquired-IdleApart used d inst p (c ∷ rest) e apart =
    let shown : Each (λ c. count (λ x. x == c) used ≡ 0) (c ∷ rest) = rw e at apart in
    let q = record p {
      available = rest;
      reused_total = p.reused_total + 1;
      discarded_total = p.discarded_total + 1;
    } in
    elim (Bool-cases (d.usable c)) [
      | inl good ↦ rw good shown.1
      | inr bad ↦ rw bad (acquired-IdleApart used d inst q rest refl shown.1)
    ]

give_back-available :
    (m : ℤ) (p : Pool) (c : ℕ) (should_discard set_it : Bool)
    → ((give_back m p c should_discard set_it).1.available ≡ p.available)
      ⊎ ((give_back m p c should_discard set_it).1.available ≡ c ∷ p.available)
unfolding give_back remove_in_use_connection
give_back-available m p c should_discard set_it = ground arith

give_back-IdleApart :
    (used : List ℕ) (m : ℤ) (p : Pool) (c : ℕ) (should_discard set_it : Bool)
    → count (λ x. x == c) used ≡ 0
    → IdleApart used p
    → IdleApart used (give_back m p c should_discard set_it).1
give_back-IdleApart used m p c should_discard set_it absent apart =
    elim (give_back-available m p c should_discard set_it) [
      | inl same ↦ rw same apart
      | inr stored ↦ rw stored (absent, apart)
    ]

pooled-IdleApart :
    {A : Type 0} (d : Driver) (inst : SqlInstanceConfig) (body : ℕ → Outcome A) (p : Pool)
    (r : Outcome ℕ) (q : Pool)
    → Adds p r q
    → IdleApart p.in_use q
    → IdleApart p.in_use (with_acquired d inst body (r >>= (λ conn. ok (conn, true)), q)).1
unfolding with_acquired release_connection
pooled-IdleApart d inst body p (raise e) q adds apart = apart
pooled-IdleApart d inst body p (ok c) q (inr (_, failed, _)) apart = cc
pooled-IdleApart d inst body p (ok c) q (inl (c', got, listed, absent)) apart =
    give_back-IdleApart p.in_use inst.pool_max q c (raised (body c) || not (d.usable_after c))
      (d.autocommit_set c) (ground (arith, got, absent)) apart

plain-IdleApart :
    {A : Type 0} (d : Driver) (inst : SqlInstanceConfig) (body : ℕ → Outcome A) (p : Pool)
    (r : Outcome ℕ)
    → IdleApart p.in_use p
    → IdleApart p.in_use (with_acquired d inst body (r >>= (λ conn. ok (conn, false)), p)).1
unfolding with_acquired release_connection
plain-IdleApart d inst body p (ok c) apart = apart
plain-IdleApart d inst body p (raise e) apart = apart

-- A call of `connect` ends, with the same connections in use and the available ones apart from them.
abbrev Leaves :
    {A : Type 0} → Driver → SqlInstanceConfig → Option Text → (ℕ → Outcome A) → Pool → Type 0
Leaves {A} d inst o body p =
    (r : Outcome A) × (p' : Pool) × (connect d inst o body p ≡ some (r, p'))
    × (p'.in_use ≡ p.in_use)
    × IdleApart p.in_use p'

connect-Leaves :
    {A : Type 0} (d : Driver) (inst : SqlInstanceConfig) (o : Option Text) (body : ℕ → Outcome A)
    (p : Pool)
    → Apart d p
    → Leaves d inst o body p
unfolding connect
connect-Leaves d inst o body p apart = elim (Bool-cases (uses_pool inst o)) [
  | inl pooled ↦
      let (r, q) = acquired d inst p p.available in
      let (s, left) = with_acquired d inst body (r >>= (λ conn. ok (conn, true)), q) in
      let adds = acquired-Adds d inst p p.available apart.0 apart.1 in
      (
        s,
        left,
        rw (acquire_alone d inst o p apart, pooled),
        pooled_in_use d inst body p r q adds,
        pooled-IdleApart d inst body p r q adds
            (acquired-IdleApart p.in_use d inst p p.available refl apart.0),
      )
  | inr plain ↦
      let r = d.connect_new o >>= (λ conn. ok (conn, false)) in
      let (s, left) = with_acquired d inst body (r, p) in
      (
        s,
        left,
        rw (acquire_alone d inst o p apart, plain),
        plain_in_use d inst body p (d.connect_new o),
        plain-IdleApart d inst body p (d.connect_new o) apart.0,
      )
]

-- The first attempt is the last: it returned, or raised an error that is not transient.
abbrev pub IsFinal : {A : Type 0} → Outcome A → Type 0
IsFinal (ok a) = Unit
IsFinal (raise e) = is_transient_read_error e ≡ false

abbrev pub IsTransient : {A : Type 0} → Outcome A → Type 0
IsTransient (ok a) = ⊥
IsTransient (raise e) = is_transient_read_error e ≡ true

module _ {A : Type 0} (drivers : ℕ → Driver) (inst : SqlInstanceConfig) (o : Option Text)
    (op : ℕ → ℕ → Outcome A) where
  last_attempt :
      (p p' : Pool) (r : Outcome A)
      → connect (drivers 1) inst o (op 1) p ≡ some (r, p')
      → attempts 1 1 drivers inst o op p ≡ some (r, p')
  unfolding attempts after_attempt can_retry
  last_attempt p p' (ok a) h = ap (after_attempt 1 (λ q. attempts 0 2 drivers inst o op q)) h
  last_attempt p p' (raise e) h = ap (after_attempt 1 (λ q. attempts 0 2 drivers inst o op q)) h

  first_attempt :
      (p p' : Pool) (r : Outcome A)
      → connect (drivers 0) inst o (op 0) p ≡ some (r, p')
      → (IsFinal r × (run_read_operation drivers inst o op p ≡ some (r, p')))
        ⊎ (IsTransient r
            × (run_read_operation drivers inst o op p ≡ attempts 1 1 drivers inst o op p'))
  unfolding run_read_operation attempts after_attempt can_retry
  first_attempt p p' (ok a) h =
      inl (tt, ap (after_attempt 0 (λ q. attempts 1 1 drivers inst o op q)) h)
  first_attempt p p' (raise e) h =
      let ran = ap (after_attempt 0 (λ q. attempts 1 1 drivers inst o op q)) h in
      elim (Bool-cases (is_transient_read_error e)) [
        | inl transient ↦ inr (transient, ran ∙ ground (arith, transient))
        | inr final ↦ inl (final, ran ∙ ground (arith, final))
      ]

  -- A read of a thread that runs alone always ends, after one attempt, or after a second where the
  -- first raised a transient error: the result is that of its last attempt. Whatever the driver and
  -- the operation answer at each attempt, the connections in use afterwards are those that were in
  -- use before.
  pub read_no_leak :
      (p : Pool)
      → ((i : ℕ) → Apart (drivers i) p)
      → (r : Outcome A) × (p' : Pool) × (run_read_operation drivers inst o op p ≡ some (r, p'))
        × (p'.in_use ≡ p.in_use)
        × ((first : Outcome A) × (p1 : Pool) × (connect (drivers 0) inst o (op 0) p
              ≡ some (first, p1))
            × ((IsFinal first × (first ≡ r))
                ⊎ (IsTransient first × (connect (drivers 1) inst o (op 1) p1 ≡ some (r, p')))))
  read_no_leak p apart =
      let (first, p1, ran, same, idle) = connect-Leaves (drivers 0) inst o (op 0) p (apart 0) in
      elim (first_attempt p p1 first ran) [
        | inl (final, whole) ↦ (first, p1, whole, same, (first, p1, ran, inl (final, refl)))
        | inr (transient, rest) ↦
            let new = λ (c : ℕ) (e : (drivers 1).connect_new none ≡ ok c).
              let absent : count (λ x. x == c) p1.in_use ≡ 0 = rw same ((apart 1).1 c e) in
              absent in
            let idle' : Each (λ c. count (λ x. x == c) p1.in_use ≡ 0) p1.available = rw same idle in
            let (r, p2, again, same', _) =
              connect-Leaves (drivers 1) inst o (op 1) p1 (idle', new) in
            (
              r,
              p2,
              rest ∙ last_attempt p1 p2 r again,
              same' ∙ same,
              (first, p1, ran, inr (transient, again)),
            )
      ]

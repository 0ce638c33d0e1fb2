-- ===== src/Db/Pool/Ends.antt =====
-- A thread that runs alone always gets an answer, in whatever state the pool is.
use mcp_sql_server.Db.Pool.Sequential.{
  Driver, acquire_connection, acquire_loop, acquire_timeout, connect, record_new, uses_pool,
  with_acquired,
}
use mcp_sql_server.Db.Pool.{Pool, discard, pool_cap, remove_in_use_connection, take_available}
use mcp_sql_server.Models.{SqlInstanceConfig}
use mcp_sql_server.Common.{
  Bool-cases, List, Option, Outcome, Text, [], ap, arith, false, inl, inr, length, ltb, none, ok,
  raise, refl, some, suc, true, zero, ℕ, ◌++◌, ◌+◌, ◌<◌, ◌>>=◌, ◌∷◌, ◌≡◌,
}

acquire_loop_ends :
    (xs : List ℕ) (fuel : ℕ) (d : Driver) (inst : SqlInstanceConfig) (p : Pool)
    → p.available ≡ xs
    → length xs < fuel
    → (r : Outcome ℕ × Pool) × (acquire_loop fuel d inst p ≡ some r)
unfolding acquire_loop take_available discard remove_in_use_connection
acquire_loop_ends xs zero d inst p e h = absurd (omega arith)
acquire_loop_ends [] (suc fuel) d inst p e h =
    elim (Bool-cases (ltb (length p.in_use) (pool_cap inst.pool_max))) [
      | inl room ↦ (record_new p (d.connect_new none), ground (arith, ap length e))
      | inr none_left ↦ ((raise (acquire_timeout inst), p), ground (arith, ap length e))
    ]
acquire_loop_ends (c ∷ rest) (suc fuel) d inst p e h =
    let taken = record p {
      available = rest;
      in_use = p.in_use ++ c ∷ [];
      reused_total = p.reused_total + 1;
    } in
    elim (Bool-cases (d.usable c)) [
      | inl good ↦ ((ok c, taken), ground (arith, e))
      | inr bad ↦
          let (r, ran) = acquire_loop_ends rest fuel d inst (discard taken c) refl (omega arith) in
          (r, ground (arith, e, ran))
    ]

pub connect_ends :
    {A : Type 0} (d : Driver) (inst : SqlInstanceConfig) (database_override : Option Text)
    (body : ℕ → Outcome A) (p : Pool)
    → (r : Outcome A × Pool) × (connect d inst database_override body p ≡ some r)
unfolding connect acquire_connection
connect_ends d inst o body p = elim (Bool-cases (uses_pool inst o)) [
  | inl pooled ↦
      let ((r, q), ran) =
        acquire_loop_ends p.available (suc (length p.available)) d inst p refl (omega arith) in
      (with_acquired d inst body (r >>= (λ conn. ok (conn, true)), q), rw (pooled, ran) refl)
  | inr plain ↦
      let r = d.connect_new o >>= (λ conn. ok (conn, false)) in
      (with_acquired d inst body (r, p), rw plain refl)
]

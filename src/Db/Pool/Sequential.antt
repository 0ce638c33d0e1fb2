-- ===== src/Db/Pool/Sequential.antt =====
-- `_acquire_connection`, `_release_connection` and `connect` of a thread that runs alone.
use mathlib.Core.Option
use mcp_sql_server.Common.{
  Bool, Each, Error, List, Option, Outcome, Text, [], ap, arith, count, false, if◌then◌else◌, int,
  is_some, length, lit, ltb, none, not, ok, raise, refl, some, str, suc, timeout_error, true, zero,
  ℕ, ◌&&◌, ◌++◌, ◌+◌, ◌<◌, ◌==◌, ◌>>=◌, ◌||◌, ◌∷◌, ◌≡◌,
}
use mcp_sql_server.Models.{SqlInstanceConfig}
use mcp_sql_server.Db.Pool.{
  Pool, create_new, discard, full, give_back, pool_cap, register, remove_first, reuse,
  take_available,
}

-- What the driver answers: whether a connection is usable when it is taken, and when it is given
-- back; whether its autocommit can be set; and what `_connect_new` gives for a database override.
pub record Driver : Type 0 where
  pub usable : ℕ → Bool
  pub usable_after : ℕ → Bool
  pub autocommit_set : ℕ → Bool
  pub connect_new : Option Text → Outcome ℕ

abbrev pub acquire_timeout : SqlInstanceConfig → Error
acquire_timeout inst = timeout_error (
    lit "Connection pool acquire timeout for instance '"
    ∷ str inst.id
    ∷ lit "' after "
    ∷ int inst.pool_acquire_timeout_sec
    ∷ lit "s"
    ∷ [])

-- The last part of the loop: a new connection is recorded under the lock.
unfoldable pub record_new : Pool → Outcome ℕ → Outcome ℕ × Pool
unfolding register
record_new p (ok conn) = (ok conn, register p conn)
record_new p (raise e) = (raise e, p)

-- The loop, with `none` where the fuel runs out. A full pool stays full while nobody else runs: the
-- thread waits until the deadline and raises.
unfoldable pub acquire_loop : ℕ → Driver → SqlInstanceConfig → Pool → Option (Outcome ℕ × Pool)
unfolding take_available discard record_new
acquire_loop zero d inst p = none
acquire_loop (suc fuel) d inst p =
    let (found, p') = take_available inst.pool_max p in
    elim found [
      | reuse conn ↦
          let again = acquire_loop fuel d inst (discard p' conn) in
          if d.usable conn then some (ok conn, p') else again
      | create_new ↦ some (record_new p' (d.connect_new none))
      | full ↦ some (raise (acquire_timeout inst), p')
    ]

abbrev pub uses_pool : SqlInstanceConfig → Option Text → Bool
uses_pool inst database_override = inst.pool_enabled && not (is_some database_override)

-- `_acquire_connection`: the connection, and whether it is pooled. Each round of the loop but the
-- last takes one of the available connections away.
unfoldable pub acquire_connection :
    Driver → SqlInstanceConfig → Option Text → Pool → Option (Outcome (ℕ × Bool) × Pool)
unfolding acquire_loop
acquire_connection d inst database_override p =
    if not (uses_pool inst database_override)
    then some (d.connect_new database_override >>= (λ conn. ok (conn, false)), p)
    else elim (acquire_loop (suc (length p.available)) d inst p) [
      | none ↦ none
      | some (r, p') ↦ some (r >>= (λ conn. ok (conn, true)), p')
    ]

-- `_release_connection`; the result says whether it closes the connection.
unfoldable pub release_connection :
    Driver → SqlInstanceConfig → Pool → ℕ → Bool → Bool → Bool × Pool
unfolding give_back
release_connection d inst p conn pooled had_error =
    if not pooled
    then (true, p)
    else let should_discard = had_error || not (d.usable_after conn) in
      give_back inst.pool_max p conn should_discard (d.autocommit_set conn)

abbrev pub raised {ℓ} : {A : Type ℓ} → Outcome A → Bool
raised (ok a) = false
raised (raise e) = true

-- The context manager from the acquisition on.
unfoldable pub with_acquired {ℓ} :
    {A : Type ℓ}
    → Driver
    → SqlInstanceConfig
    → (ℕ → Outcome A)
    → Outcome (ℕ × Bool) × Pool
    → Outcome A × Pool
unfolding release_connection
with_acquired d inst body (raise e, p) = (raise e, p)
with_acquired d inst body (ok (conn, pooled), p) =
    let r = body conn in (r, (release_connection d inst p conn pooled (raised r)).1)

-- `with self.connect(instance_id, database_override) as conn: body(conn)`
unfoldable pub connect {ℓ} :
    {A : Type ℓ}
    → Driver
    → SqlInstanceConfig
    → Option Text
    → (ℕ → Outcome A)
    → Pool
    → Option (Outcome A × Pool)
unfolding acquire_connection with_acquired
connect d inst database_override body p =
    Option.map (with_acquired d inst body) (acquire_connection d inst database_override p)

-- No available connection, and no new one, is already in use.
abbrev pub Apart : Driver → Pool → Type 0
Apart d p =
    Each (λ c. count (λ x. x == c) p.in_use ≡ 0) p.available
    × ((c : ℕ) → d.connect_new none ≡ ok c → count (λ x. x == c) p.in_use ≡ 0)

pub remove_first_last :
    (c : ℕ) (xs : List ℕ) → count (λ x. x == c) xs ≡ 0 → remove_first c (xs ++ c ∷ []) ≡ xs
unfolding count remove_first
remove_first_last c [] h = ground arith
remove_first_last c (x ∷ xs) h = ground (arith, remove_first_last c xs)

-- What the loop comes to, with the available connections given as a list: the first that is usable,
-- all before it discarded; if there is none, a new one where there is room; else the timeout.
unfoldable pub acquired : Driver → SqlInstanceConfig → Pool → List ℕ → Outcome ℕ × Pool
unfolding record_new
acquired d inst p [] =
    if ltb (length p.in_use) (pool_cap inst.pool_max)
    then record_new p (d.connect_new none)
    else (raise (acquire_timeout inst), p)
acquired d inst p (c ∷ rest) =
    let p' = record p { available = rest; reused_total = p.reused_total + 1 } in
    let later = acquired d inst (record p' { discarded_total = p.discarded_total + 1 }) rest in
    if d.usable c then (ok c, record p' { in_use = p.in_use ++ c ∷ [] }) else later

pub acquire_loop-acquired :
    (xs : List ℕ) (fuel : ℕ) (d : Driver) (inst : SqlInstanceConfig) (p : Pool)
    → p.available ≡ xs
    → length xs < fuel
    → Each (λ c. count (λ x. x == c) p.in_use ≡ 0) xs
    → acquire_loop fuel d inst p ≡ some (acquired d inst p xs)
unfolding acquire_loop acquired
acquire_loop-acquired xs zero d inst p e h apart = absurd (omega arith)
acquire_loop-acquired [] (suc fuel) d inst p e h apart = ground (arith, ap length e)
acquire_loop-acquired (c ∷ rest) (suc fuel) d inst p e h apart =
    let taken = record p {
      available = rest;
      in_use = remove_first c (p.in_use ++ c ∷ []);
      reused_total = p.reused_total + 1;
      discarded_total = p.discarded_total + 1;
    } in
    let same = remove_first_last c p.in_use apart.0 in
    ground (
      arith,
      same,
      acquire_loop-acquired rest fuel d inst (record taken { in_use = p.in_use }) refl (omega arith)
          apart.1,
    )

-- ===== src/Db/Manager/Checks.antt =====
-- The health checks, the report of the pools, and their closing.
pub mod Ready
use mcp_sql_server.Db.Manager.{
  Health, Manager, World, healthy, on_instance, pool_of, unhealthy, unknown_condition,
}
use mcp_sql_server.Db.Pool.Sequential.{connect}
use mcp_sql_server.Db.Pool.{Pool, close_all}
use mcp_sql_server.Models.{SqlInstanceConfig}
use mcp_sql_server.Common.{
  Bool, Dict, List, Option, Outcome, Text, [], and_then, codes, false, insert, keys, length, none,
  ok, raise, some, true, ℕ, ℤ, ◌&&◌, ◌++◌, ◌+◌, ◌∷◌,
}

-- One entry of `get_pool_diagnostics`.
pub record PoolInfo : Type 0 where
  pub enabled : Bool
  pub pool_max : ℤ
  pub size : ℕ
  pub in_use : ℕ
  pub available : ℕ
  pub created_total : ℕ
  pub reused_total : ℕ
  pub discarded_total : ℕ

unfoldable pub pool_info : SqlInstanceConfig → Pool → PoolInfo
pool_info inst p = record {
  enabled = inst.pool_enabled;
  pool_max = inst.pool_max;
  size = length p.available + length p.in_use;
  in_use = length p.in_use;
  available = length p.available;
  created_total = p.created_total;
  reused_total = p.reused_total;
  discarded_total = p.discarded_total;
}

unfoldable pub diagnostics_of : Manager → Dict SqlInstanceConfig → Dict PoolInfo
unfolding pool_info
diagnostics_of m [] = []
diagnostics_of m ((k, inst) ∷ rest) = (k, pool_info inst (pool_of m k)) ∷ diagnostics_of m rest

unfoldable pub get_pool_diagnostics : Manager → Dict PoolInfo
unfolding diagnostics_of
get_pool_diagnostics m = diagnostics_of m m.instances

-- `close_all_pools`: the connections that are closed, and the emptied pools.
unfoldable pub close_pools : Dict Pool → List ℕ × Dict Pool
unfolding close_all
close_pools [] = ([], [])
close_pools ((k, p) ∷ rest) =
    let (closed, p') = close_all p in
    let (others, rest') = close_pools rest in (closed ++ others, (k, p') ∷ rest')

unfoldable pub close_all_pools : Manager → List ℕ × Manager
unfolding close_pools
close_all_pools m =
    let (closed, pools) = close_pools m.pool_state in (closed, record m { pool_state = pools })

abbrev pub is_healthy : Health → Bool
is_healthy h = elim h.state [ unknown_condition ↦ false | healthy ↦ true | unhealthy ↦ false ]

-- What a check notes down, at a time and with a latency.
unfoldable pub health_of : Outcome (Unit {0}) → ℕ × ℕ → Health
health_of (ok _) (checked_at, latency_ms) = record {
  state = healthy;
  checked_at = some checked_at;
  latency_ms = some latency_ms;
  error = none;
}
health_of (raise e) (checked_at, latency_ms) = record {
  state = unhealthy;
  checked_at = some checked_at;
  latency_ms = some latency_ms;
  error = some e;
}

module _ {C V : Type 0} (world : World C V) (clock : Text → ℕ × ℕ) where
  unfoldable pub probe : C → Outcome (Unit {0}) × C
  probe c =
      and_then (world.cursor.execute (codes "SELECT 1") [] c)
        (λ _ c. and_then (world.cursor.fetchone c) (λ _ c. (ok tt, c)))

  abbrev pub probe_pool : Text → SqlInstanceConfig → Pool → Option (Outcome (Unit {0}) × Pool)
  probe_pool instance_id inst p =
      connect (world.driver instance_id 0) inst none
        (λ conn. (probe (world.session instance_id 0 conn)).0) p

  unfoldable pub healthcheck_instance : Text → Manager → Option (Health × Manager)
  unfolding on_instance health_of probe connect insert
  healthcheck_instance instance_id m = elim (on_instance (probe_pool instance_id) instance_id m) [
    | none ↦ none
    | some (o, m') ↦
        let h = health_of o (clock instance_id) in
        some (h, record m' { health = insert instance_id h m'.health })
  ]

  -- The comprehension over the instances.
  unfoldable pub check_onto : Dict Health → List Text → Manager → Option (Dict Health × Manager)
  unfolding healthcheck_instance insert
  check_onto d [] m = some (d, m)
  check_onto d (instance_id ∷ rest) m = elim (healthcheck_instance instance_id m) [
    | none ↦ none
    | some (h, m') ↦ check_onto (insert instance_id h d) rest m'
  ]

  unfoldable pub healthcheck_all : Manager → Option (Dict Health × Manager)
  unfolding check_onto
  healthcheck_all m = check_onto [] (keys m.instances) m

-- `readiness` of diagnostics/routes.py: `all(v.get("state") == "healthy" for v in health.values())`
unfoldable pub all_healthy : Dict Health → Bool
all_healthy [] = true
all_healthy ((_, h) ∷ rest) = is_healthy h && all_healthy rest

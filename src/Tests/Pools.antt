-- ===== src/Tests/Pools.antt =====
-- db/connection_manager.py at concrete pools.
use mcp_sql_server.Common.{
  Outcome, [], arith, codes, count, false, length, none, not, ok, pos, raise, refl, runtime_error,
  some, total, true, ℕ, ◌+◌, ◌<◌, ◌==◌, ◌∷◌, ◌≡◌, ◌≤◌,
}
use mcp_sql_server.Db.Pool.Alone.{connect_no_leak}
use mcp_sql_server.Db.Pool.Sequential.{Apart, Driver, connect}
use mcp_sql_server.Db.Pool.Overshoot.{overshoot}
use mcp_sql_server.Db.Pool.Capacity.{capacity, pending}
use mcp_sql_server.Db.Pool.Ownership.{exclusive, has, in_use_exact, listed, occurs, one_if}
use mcp_sql_server.Db.Pool.Threads.{
  Event, Reach, System, act, ask, asked, asking, enter, here, holding, move, next, opening, outside,
  record_it, registering,
}
use mcp_sql_server.Db.Pool.{Pool, empty, pool_cap, pool_size, register, take_available}
use mcp_sql_server.Models.{SqlInstanceConfig, default_instance}

-- Of two threads the first takes a new connection.
abbrev one_holds : System
one_holds = record {
  pool = record empty { in_use = 0 ∷ []; created_total = 1 };
  threads = holding 0 ∷ outside ∷ [];
  next_conn = 1;
}

one_holds-Reach : Reach (pos 1) 2 one_holds
unfolding act take_available register asked
one_holds-Reach =
    next
      (next
        (next (next here (move 0 outside enter empty 0 asking refl refl))
          (move 0 asking (ask false) empty 0 opening refl refl))
        (move 0 opening (Event.connect true) empty 1 (registering 0) refl refl))
      (move 0 (registering 0) record_it _ 1 (holding 0) refl refl)

exclusive_example : ◌≡◌ {A = ℕ} 0 0 × (occurs 0 one_holds.pool.available ≡ 0)
unfolding has one_if
exclusive_example = exclusive 0 0 0 (holding 0) (holding 0) one_holds-Reach refl refl refl refl

in_use_exact_example : occurs 0 one_holds.pool.in_use ≡ total (listed 0) one_holds.threads
in_use_exact_example = in_use_exact 0 one_holds-Reach

capacity_example :
    (length one_holds.pool.available ≤ pool_cap (pos 1))
    × (pool_size one_holds.pool + total pending one_holds.threads < pool_cap (pos 1) + 2)
capacity_example = capacity one_holds-Reach

overshoot_example : (s : System) × Reach (pos 1) 3 s × (length s.pool.in_use ≡ 3)
overshoot_example = overshoot (pos 1) 3

abbrev primary : SqlInstanceConfig
primary = default_instance (codes "primary") (codes "db1") (codes "master") (codes "sql/primary")

-- Connection 5 does not answer; 6 does.
abbrev driver : Driver
driver = record {
  usable = λ c. not (c == 5);
  usable_after = λ c. not (c == 6);
  autocommit_set = λ _. true;
  connect_new = λ _. ok 9;
}

abbrev two_idle : Pool
two_idle = record empty { available = 5 ∷ 6 ∷ []; in_use = 4 ∷ []; created_total = 3 }

two_idle-Apart : Apart driver two_idle
unfolding count
two_idle-Apart = ((refl, (refl, tt)), λ c e. ground arith)

connect_no_leak_example :
    (r : Outcome ℕ) × (p' : Pool) × (connect driver primary none
        (λ c. raise (runtime_error []))
        two_idle
      ≡ some (r, p'))
    × (p'.in_use ≡ two_idle.in_use)
connect_no_leak_example =
    connect_no_leak driver primary none (λ c. raise (runtime_error [])) two_idle two_idle-Apart

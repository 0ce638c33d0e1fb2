-- ===== src/Tests/Managers.antt =====
-- The connection manager on a driver whose connections keep what is pending and what is durable.
use mcp_sql_server.Db.Manager.Checks.Ready.{all_up, readiness_exact}
use mcp_sql_server.Db.Manager.Checks.{all_healthy, healthcheck_all}
use mcp_sql_server.Db.Manager.{
  Health, Manager, World, enabled_onto, init_manager, list_enabled_instances,
}
use mcp_sql_server.Db.Queries.Commits.{Ends, proc_atomic}
use mcp_sql_server.Db.Queries.Cells.{read_exact}
use mcp_sql_server.Db.Queries.{Cursor, Result, proc_op, read_op, showplan_off, showplan_on}
use mcp_sql_server.Db.Pool.Sequential.{Driver}
use mcp_sql_server.Models.{SqlInstanceConfig, default_instance}
use mcp_sql_server.Common.{
  Bool, Dict, IsDict, List, Text, [], codes, false, get_elem?, if◌then◌else◌, insert, keys, length,
  lookup, none, ok, pos, refl, some, text_eq, true, ℕ, ◌+◌, ◌∷◌, ◌≡◌,
}

record Conn : Type 0 where
  pending : ℕ
  durable : ℕ
  shows : Bool

abbrev fresh : Conn
fresh = record { pending = 0; durable = 7; shows = false }

abbrev rows : List (List Text)
rows = (codes "x" ∷ codes "y" ∷ []) ∷ (codes "z" ∷ []) ∷ []

abbrev cursor : Cursor Conn Text
cursor = record {
  execute = λ sql params c. (
    ok tt,
    record c {
      pending = c.pending + 1;
      shows =
          if text_eq sql showplan_on
          then true
          else if text_eq sql showplan_off
          then false
          else c.shows;
    },
  );
  has_description = λ c. true;
  names = λ c. some (codes "a") ∷ some (codes "a") ∷ [];
  fetchone = λ c. (ok none, c);
  fetchmany = λ n c. (ok rows, c);
  fetchall = λ c. (ok rows, c);
  commit = λ c. (ok tt, record c { durable = c.pending });
  rowcount = λ c. pos 1;
}

abbrev query : Text
query = codes "SELECT 1"

abbrev asked : Conn
asked = record { pending = 1; durable = 7; shows = false }

read_exact_example :
    (r : Result Text) × (read_op cursor query (pos 5) fresh ≡ (ok r, asked))
    × (length r.columns ≡ 2)
    × (length r.rows ≡ 2)
    × ((i j : ℕ) (k : Text) (row : List Text)
        → get_elem? r.columns i ≡ some k
        → get_elem? rows j ≡ some row
        → (d : Dict Text) × (get_elem? r.rows j ≡ some d) × (lookup k d ≡ get_elem? row i))
unfolding text_eq
read_exact_example = read_exact cursor query (pos 5) fresh asked asked rows refl refl

-- A connection with a procedure that leaves its commit to the caller.
proc_atomic_example :
    Ends cursor (λ c. c.durable) 7 (proc_op cursor (codes "dbo.p") (codes "1" ∷ []) fresh)
proc_atomic_example =
    proc_atomic cursor (λ c. c.durable) (codes "dbo.p") (codes "1" ∷ []) fresh
      (record { by_execute = λ params c. refl; by_fetchall = λ c. refl })

abbrev primary : SqlInstanceConfig
primary = default_instance (codes "a") (codes "h") (codes "master") (codes "SQL")

abbrev driver : Driver
driver = record {
  usable = λ _. true;
  usable_after = λ _. true;
  autocommit_set = λ _. true;
  connect_new = λ _. ok 9;
}

abbrev world : World Conn Text
world = record {
  driver =
      λ instance_id attempt. record driver { usable = λ conn. text_eq instance_id (codes "a") };
  cursor = cursor;
  session = λ instance_id attempt conn. fresh;
}

abbrev manager : Manager
manager = init_manager (primary ∷ record primary { id = codes "b" } ∷ [])

manager-IsDict : IsDict manager.instances
unfolding init_manager enabled_onto insert lookup text_eq default_instance
manager-IsDict = (refl, (refl, tt))

readiness_exact_example :
    (health : Dict Health) × (m' : Manager) × (healthcheck_all world (λ _. (0, 1)) manager
      ≡ some (health, m'))
    × (keys health ≡ list_enabled_instances manager)
    × (all_healthy health ≡ all_up world (λ _. (0, 1)) manager manager.instances)
readiness_exact_example = readiness_exact world (λ _. (0, 1)) manager manager-IsDict

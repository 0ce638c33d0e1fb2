-- ===== src/Tests/Stacks.antt =====
-- Calls of tools on a connection manager with one instance.
use mcp_sql_server.Security.Sessions
use mcp_sql_server.Middleware.RateLimit
use mcp_sql_server.Tools.Stack.{Holding, calls_no_leak, manager_backend}
use mcp_sql_server.Tools.Gate.{Request, State, attempt, exec_proc, run_read_tool, select}
use mcp_sql_server.Db.Manager.Isolated.{AllApart}
use mcp_sql_server.Db.Manager.{Manager, World}
use mcp_sql_server.Db.Queries.{Cursor}
use mcp_sql_server.Db.Pool.Sequential.{Driver}
use mcp_sql_server.Db.Pool.{Pool, empty}
use mcp_sql_server.Models.{default_instance, default_policy}
use mcp_sql_server.Common.{
  Bool-cases, [], arith, codes, count, false, inl, inr, lookup, none, ok, pos, refl, text_eq, true,
  ℕ, ◌∷◌,
}

abbrev cursor : Cursor ℕ ℕ
cursor = record {
  execute = λ sql params c. (ok tt, c);
  has_description = λ c. false;
  names = λ c. none ∷ [];
  fetchone = λ c. (ok none, c);
  fetchmany = λ n c. (ok ((c ∷ []) ∷ []), c);
  fetchall = λ c. (ok [], c);
  commit = λ c. (ok tt, c);
  rowcount = λ c. pos 0;
}

abbrev driver : Driver
driver = record {
  usable = λ _. true;
  usable_after = λ _. true;
  autocommit_set = λ _. true;
  connect_new = λ _. ok 9;
}

abbrev world : World ℕ ℕ
world = record {
  driver = λ instance_id attempt. driver;
  cursor = cursor;
  session = λ instance_id attempt conn. conn;
}

abbrev busy : Pool
busy = record empty { available = 6 ∷ []; in_use = 4 ∷ []; created_total = 2 }

abbrev manager : Manager
manager = record {
  instances =
      (codes "a", default_instance (codes "a") (codes "h") (codes "master") (codes "SQL")) ∷ [];
  health = [];
  pool_state = (codes "a", busy) ∷ [];
}

abbrev state : State Manager
state = record {
  auth = none;
  session_manager = Sessions.init (pos 480) (pos 30) (pos 2);
  rate_limiter = RateLimit.init (pos 2) (pos 0) (pos 10) (pos 0);
  write_guard = record { policy = default_policy; blocked = [] };
  max_result_rows = pos 5000;
  denied_requests = 0;
  audit_log = [];
  database = manager;
}

abbrev request : Request
request = record {
  request_id = codes "r1";
  tool = codes "db_01_select";
  instance_id = codes "a";
  actor = codes "ann";
  database_name = [];
  mcp_session_id = none;
  token = none;
  touch_time = 1000000;
  cleanup_time = 1000000;
  allow_time = 1000000;
}

world-AllApart : AllApart world manager
unfolding lookup count
world-AllApart instance_id attempt = elim (Bool-cases (text_eq (codes "a") instance_id)) [
  | inl here ↦ rw here ((refl, tt), λ c e. ground arith)
  | inr gone ↦ rw gone (tt, λ c e. refl)
]

calls_no_leak_example :
    Holding world state
      (run_read_tool (manager_backend world) (codes "SELECT 1") (pos 9) request state).1
    × Holding world state (select (manager_backend world) (codes "SELECT 1") request state).1
    × Holding world state (exec_proc (manager_backend world) (codes "p") [] request state).1
calls_no_leak_example =
    calls_no_leak world (codes "SELECT 1") (codes "p") (pos 9) [] request state world-AllApart

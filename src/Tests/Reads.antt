-- ===== src/Tests/Reads.antt =====
-- A read whose first attempt loses its connection.
use mcp_sql_server.Db.Reads.Retry.{IsFinal, IsTransient, read_no_leak}
use mcp_sql_server.Db.Reads.{args_of, is_transient_read_error, joined, run_read_operation}
use mcp_sql_server.Db.Pool.Sequential.{Apart, Driver, connect}
use mcp_sql_server.Db.Pool.{Pool, empty}
use mcp_sql_server.Models.{SqlInstanceConfig, default_instance}
use mcp_sql_server.Common.{
  Error, Outcome, [], arith, codes, count, database_error, elem, if◌then◌else◌, is_space, lstrip,
  none, ok, raise, refl, rstrip, some, strip, text_eq, true, upper_char, ℕ, ◌==◌, ◌∷◌, ◌≡◌, ◌⊎◌,
}

abbrev primary : SqlInstanceConfig
primary = default_instance (codes "a") (codes "h") (codes "master") (codes "SQL")

abbrev driver : Driver
driver = record {
  usable = λ _. true;
  usable_after = λ _. true;
  autocommit_set = λ _. true;
  connect_new = λ _. ok 9;
}

abbrev idle : Pool
idle = record empty { available = 6 ∷ []; in_use = 4 ∷ []; created_total = 2 }

abbrev lost : Error
lost = database_error (codes " 08s01" ∷ codes "gone" ∷ [])

abbrev operation : ℕ → ℕ → Outcome ℕ
operation attempt conn = if attempt == 0 then raise lost else ok conn

idle-Apart : Apart driver idle
unfolding count
idle-Apart = ((refl, tt), λ c e. ground arith)

read_no_leak_example :
    (r : Outcome ℕ) × (p' : Pool) × (run_read_operation (λ _. driver) primary none operation idle
      ≡ some (r, p'))
    × (p'.in_use ≡ idle.in_use)
    × ((first : Outcome ℕ) × (p1 : Pool) × (connect driver primary none (operation 0) idle
          ≡ some (first, p1))
        × ((IsFinal first × (first ≡ r))
            ⊎ (IsTransient first × (connect driver primary none (operation 1) p1 ≡ some (r, p')))))
read_no_leak_example = read_no_leak (λ _. driver) primary none operation idle (λ _. idle-Apart)

retried : is_transient_read_error lost ≡ true
unfolding is_transient_read_error args_of joined strip lstrip rstrip is_space elem text_eq
    upper_char
retried = refl

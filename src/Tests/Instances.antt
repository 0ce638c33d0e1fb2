-- ===== src/Tests/Instances.antt =====
-- The tools of an instance at a concrete state: the database counts its operations.
use mcp_sql_server.Tools.Statements.{Row}
use mcp_sql_server.Security.Sessions
use mcp_sql_server.Middleware.RateLimit
use mcp_sql_server.Common.{
  Error, List, Outcome, Text, [], any, codes, database_error, elem, if◌then◌else◌, is_empty,
  is_space, length, lower_char, ok, pos, raise, refl, starts_with, text_eq, true, upper_char, ℕ, ℤ,
  ◌++◌, ◌+ℤ◌, ◌+◌, ◌∷◌, ◌≡◌,
}
use mcp_sql_server.Tests.Calls.{backend, select_call, server}
use mcp_sql_server.Tests.Reports.{exceptions, execute, hundredths}
use mcp_sql_server.Tools.Instance.{Operations, both_clauses, no_clauses, value_clause}
use mcp_sql_server.Tools.Instance.Handlers.{
  execute_query, list_object, list_object_sql, list_tools, list_tools_sql, ping, ping_sql,
  top_statements,
}
use mcp_sql_server.Tools.Instance.Guarded.{query_write_refused}
use mcp_sql_server.Tools.Instance.Recorded.{Recorded, Told, answered, instance_calls-Recorded}
use mcp_sql_server.Db.Pool.Sequential.{raised}
use mcp_sql_server.Middleware.WriteGuard.Lead.{nothing, space}

abbrev operations : Operations ℕ ℕ ℕ
operations = record {
  fetch_single_row = λ _ _ _ n. (raise (database_error []), n + 1);
  list_objects = λ _ _ _ n. (ok [], n + 1);
  read_in_database = λ _ _ _ _ n. (ok (record { columns = []; rows = [] }), n + 1);
  explain = λ _ _ _ n. (raise (database_error []), n + 1);
}

abbrev shown : Error → Text
shown e = exceptions.shown_error e

abbrev write_query : Text
write_query = (32 ∷ []) ++ (codes "Delete" ++ codes " FROM t")

query_write_refused_example :
    let r = execute_query backend shown operations write_query (codes "full") select_call server in
    (raised r.0 ≡ true) × (r.1.database ≡ server.database)
unfolding is_space elem text_eq upper_char
query_write_refused_example =
    query_write_refused backend shown operations (codes "full") select_call server
      (space 32 [] refl nothing) b'D' (codes "elete") (codes " FROM t") refl refl refl refl

abbrev per_database : Text → Text → ℤ → ℕ → Outcome (List (Row ℕ)) × ℕ
per_database db_name = execute

abbrev tool_names : List Text
tool_names = codes "db_01_sql2019_ping" ∷ codes "db_02_sql2019_ping" ∷ []

instance_calls-Recorded_example :
    (let r = list_object backend shown operations (codes "view") select_call server in
      Recorded (list_object_sql select_call.database_name (codes "view")) length server r
      × Told value_clause r.0)
    × (let r = list_tools backend shown operations (codes "01") tool_names select_call server in
        Recorded list_tools_sql (λ x. length x.tools) server r × Told no_clauses r.0)
    × (let r =
          execute_query backend shown operations write_query (codes "full") select_call server in
        Recorded write_query (λ x. length x.result.rows) server r × Told both_clauses r.0)
    × (let r =
          top_statements backend hundredths exceptions per_database 1
            (pos 5)
            (pos 60)
            (codes "full")
            select_call
            server in
        Recorded
          (codes "TOP_STATEMENTS")
          (λ x. x.0.summary.statements_analyzed + x.0.summary.objects_checked)
          server
          r
        × Told both_clauses r.0)
    × (let r = ping backend shown operations select_call server in
        Recorded ping_sql
          (λ x. if is_empty x then 0 else 1)
          server
          (answered backend shown operations r.0, r.1))
instance_calls-Recorded_example =
    instance_calls-Recorded backend exceptions operations hundredths per_database (codes "view")
      write_query (codes "full") (codes "01") tool_names 1 (pos 5) (pos 60) select_call server

-- A query that reads runs, and its plan, whose failure is not the query's.
query_runs :
    (execute_query backend shown operations
      (codes "SELECT 1")
      (codes "full")
      select_call
      server).1.database
    ≡ 2
unfolding execute_query is_space elem text_eq upper_char lower_char Sessions.init ◌+ℤ◌
    RateLimit.init RateLimit.prune any starts_with
query_runs = refl

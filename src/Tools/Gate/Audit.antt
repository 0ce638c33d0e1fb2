-- ===== src/Tools/Gate/Audit.antt =====
-- Every call ends in the audit log, whatever becomes of it.
use mcp_sql_server.Tools.Gate.Events.{
  Named, Told, denials-refusals, event-Named, event-Told, event-request, refusals,
}
use mcp_sql_server.Middleware.WriteGuard.{enforce}
use mcp_sql_server.Tools.Gate.{
  Backend, Event, Request, State, allow_request, attempt, call_procedure, check_procedure, conclude,
  event_of, exec_proc, on_database, read_database, run_read_tool, select, touch_session,
  transaction,
}
use mcp_sql_server.Tools.Authorize.{Context, resolve_actor_and_authorize}
use mcp_sql_server.Tools.Inputs.{validate_database_name}
use mcp_sql_server.Security.Privilege.{Level, read_level, write_level}
use mcp_sql_server.Middleware.RateLimit.{Limiter, allow}
use mcp_sql_server.Security.Sessions.{SessionManager, touch}
use mcp_sql_server.Common.{
  Bool, List, Outcome, Text, [], and_then, ap, codes, false, if◌then◌else◌, is_empty, none, ok,
  raise, refl, some, true, ℤ, ◌++◌, ◌+◌, ◌∷◌, ◌≡◌,
}

-- The parts of the state that a step of a call leaves to the end of the call.
abbrev pub Kept : {D : Type 0} → State D → State D → Type 0
Kept s s' = (s'.audit_log ≡ s.audit_log) × (s'.denied_requests ≡ s.denied_requests)

module _ {D R V : Type 0} (backend : Backend D R V) where
  -- The log is longer by the one event of the call, and its refusal is counted.
  abbrev pub Logged : Level → Text → Request → State D → Outcome (List R) × State D → Type 0
  Logged required sql q s r =
      ((e : Event) × (r.1.audit_log ≡ s.audit_log ++ e ∷ [])
        × ((e.request_id ≡ q.request_id)
            × (e.tool ≡ q.tool)
            × (e.instance_id ≡ q.instance_id)
            × (e.sql ≡ sql))
        × Named q.actor (resolve_actor_and_authorize s.auth required q.token q.actor) e
        × Told r.0 e)
      × (r.1.denied_requests ≡ s.denied_requests + refusals r.0)

  pub attempt-Kept :
      {A : Type 0} (policy_check : State D → Outcome (Unit {0}))
      (action : State D → Outcome A × State D) (q : Request) (authorized : Outcome (Text × Context))
      (s : State D)
      → ((s : State D) → Kept s (action s).1)
      → Kept s (attempt backend policy_check action q authorized s).1
  unfolding attempt touch_session allow_request
  attempt-Kept policy_check action q (raise e) s h = (refl, refl)
  attempt-Kept policy_check action q (ok (actor, ctx)) s h =
      touched
        (touch s.session_manager q.touch_time q.cleanup_time actor q.request_id q.mcp_session_id)
    where
      checked :
          (o : Outcome (Unit {0})) (s : State D) → Kept s (and_then (o, s) (λ _ s. action s)).1
      checked (raise e) s = (refl, refl)
      checked (ok tt) s = h s

      allowed :
          (s : State D) (r : Outcome (Unit {0}) × Limiter)
          → Kept s
              (and_then
                (r.0, record s { rate_limiter = r.1 })
                (λ _ s. and_then (policy_check s, s) (λ _ s. action s))).1
      allowed s (raise e, l) = (refl, refl)
      allowed s (ok tt, l) =
          checked (policy_check (record s { rate_limiter = l })) (record s { rate_limiter = l })

      touched :
          (r : Outcome (Unit {0}) × SessionManager)
          → Kept s
              (and_then
                (r.0, record s { session_manager = r.1 })
                (λ _ s.
                  and_then
                    (allow_request backend q actor s)
                    (λ _ s. and_then (policy_check s, s) (λ _ s. action s)))).1
      touched (raise e, m) = (refl, refl)
      touched (ok tt, m) =
          let s1 = record s { session_manager = m } in
          allowed s1 (allow s.rate_limiter q.allow_time actor)

  transaction-Logged :
      (required : Level) (policy_check : State D → Outcome (Unit {0}))
      (action : State D → Outcome (List R) × State D) (sql : Text) (q : Request) (s : State D)
      → ((s : State D) → Kept s (action s).1)
      → Logged required sql q s (transaction backend required policy_check action sql q s)
  unfolding transaction conclude
  transaction-Logged required policy_check action sql q s h =
      let authorized = resolve_actor_and_authorize s.auth required q.token q.actor in
      let (log, denied) = attempt-Kept policy_check action q authorized s h in
      let o = (attempt backend policy_check action q authorized s).0 in
      let e = event_of backend sql q authorized o in
      (
        (
          e,
          ap (λ xs. xs ++ e ∷ []) log,
          event-request backend sql q authorized o,
          event-Named backend sql q authorized o,
          event-Told backend sql q authorized o,
        ),
        rw (denied, denials-refusals backend o) refl,
      )

  read_database-Kept :
      (sql : Text) (max_rows : ℤ) (q : Request) (s : State D)
      → Kept s (read_database backend sql max_rows q s).1
  unfolding read_database
  read_database-Kept sql max_rows q s =
      in_either (is_empty q.database_name) (validate_database_name q.database_name)
    where
      in_either :
          (b : Bool) (o : Outcome Text)
          → Kept s
              (if b
                then on_database backend (backend.execute_read q.instance_id sql max_rows) s
                else and_then
                    (o, s)
                    (λ db_name s.
                      on_database backend
                        (backend.execute_read_in_database q.instance_id db_name sql max_rows)
                        s)).1
      in_either true o = (refl, refl)
      in_either false (ok db_name) = (refl, refl)
      in_either false (raise e) = (refl, refl)

  call_procedure-Kept :
      (proc_name : Text) (params : List V) (q : Request) (s : State D)
      → Kept s (call_procedure backend proc_name params q s).1
  unfolding call_procedure
  call_procedure-Kept proc_name params q s =
      in_either (is_empty q.database_name) (validate_database_name q.database_name)
    where
      in_either :
          (b : Bool) (o : Outcome Text)
          → Kept s
              (if b
                then on_database backend
                    (backend.execute_proc q.instance_id proc_name params none)
                    s
                else and_then
                    (o, s)
                    (λ db_name s.
                      on_database backend
                        (backend.execute_proc q.instance_id proc_name params (some db_name))
                        s)).1
      in_either true o = (refl, refl)
      in_either false (ok db_name) = (refl, refl)
      in_either false (raise e) = (refl, refl)

  -- Each call of a catalogue tool, of `select` and of `exec_proc`, also one that raises, adds one
  -- event to the end of the audit log: with its request, tool, instance and statement; with the
  -- actor and the context that the authorisation gave, or else the actor of the request and no
  -- context; with `allow`, the number of rows and no code if the call returns; and with `deny`, no
  -- rows and a code if it raises, that of a `PermissionError` being its message. The count of denied
  -- requests grows by one exactly where a `PermissionError` is raised.
  pub calls-Logged :
      (sql proc_name : Text) (max_rows : ℤ) (params : List V) (q : Request) (s : State D)
      → Logged read_level sql q s (run_read_tool backend sql max_rows q s)
        × Logged read_level sql q s (select backend sql q s)
        × Logged write_level
            (codes "EXEC " ++ proc_name)
            q
            s
            (exec_proc backend proc_name params q s)
  unfolding run_read_tool select exec_proc
  calls-Logged sql proc_name max_rows params q s = (
    transaction-Logged read_level (λ s. enforce s.write_guard q.tool sql)
        (read_database backend sql max_rows q) sql q s (read_database-Kept sql max_rows q),
    transaction-Logged read_level (λ s. enforce s.write_guard q.tool sql)
        (λ s. read_database backend sql s.max_result_rows q s) sql q s
        (λ s. read_database-Kept sql s.max_result_rows q s),
    transaction-Logged write_level (check_procedure backend proc_name q)
        (call_procedure backend proc_name params q) (codes "EXEC " ++ proc_name) q s
        (call_procedure-Kept proc_name params q),
  )

-- ===== src/Tools/Instance/Recorded.antt =====
-- Every call of a tool of an instance is answered, counted and logged.
use mcp_sql_server.Tools.Statements.Collect.{Exceptions}
use mcp_sql_server.Tools.Statements.{Floats, Row}
use mcp_sql_server.Tools.Instance.Handlers.{
  Ping, accessible, check_inputs, execute_query, finish_ping, list_object, list_object_sql,
  list_tools, list_tools_sql, matching_tools, ping, ping_action, ping_sql, tools_action,
  top_statements, unreachable,
}
use mcp_sql_server.Tools.Inputs.{validate_view_mode}
use mcp_sql_server.Security.Privilege.{read_level}
use mcp_sql_server.Tools.Gate.Audit.{Kept, attempt-Kept}
use mcp_sql_server.Common.{
  Bool, Dict, Error, List, Message, Outcome, Text, [], ap, arith, codes, count, false,
  if◌then◌else◌, inl, inr, is_empty, length, lit, none, ok, raise, refl, runtime_error, some, true,
  ℕ, ℤ, ◌++◌, ◌+◌, ◌∙◌, ◌∷◌, ◌≡◌, ◌⊎◌,
}
use mcp_sql_server.Tools.Gate.{
  Backend, Decision, Event, Request, State, allow_decision, deny_decision,
}
use mcp_sql_server.Tools.Authorize.{Context, resolve_actor_and_authorize}
use mcp_sql_server.Tools.Instance.{
  Clauses, Operations, both_clauses, code_of, finish_call, message_of, no_clauses, no_policy,
  passes, seen, tool_call, tool_event, value_clause, wrapped_code,
}
use mcp_sql_server.Db.Pool.Sequential.{raised}

abbrev pub decision_of : {A : Type 0} → Outcome A → Decision
decision_of o = if raised o then deny_decision else allow_decision

abbrev pub rows_of : {A : Type 0} → (A → ℕ) → Outcome A → ℕ
rows_of count (ok a) = count a
rows_of count (raise e) = 0

-- An error that the caller may see: one with a clause of its own, or a RuntimeError.
abbrev pub Told : {A : Type 0} → Clauses → Outcome A → Type 0
Told let_through (ok a) = Unit {0}
Told let_through (raise e) = (passes let_through e ≡ true) ⊎ ((m : Message) × (e ≡ runtime_error m))

-- The log is longer by one event, with the decision and the rows of the answer; every error is
-- counted as a denial, and only errors are.
abbrev pub Recorded : {A D : Type 0} → Text → (A → ℕ) → State D → Outcome A × State D → Type 0
Recorded sql count s r =
    ((e : Event) × (r.1.audit_log ≡ s.audit_log ++ e ∷ [])
      × (e.sql ≡ sql)
      × (e.decision ≡ decision_of r.0)
      × (e.rows ≡ rows_of count r.0))
    × (r.1.denied_requests ≡ s.denied_requests + (if raised r.0 then 1 else 0))

plus_zero : (n : ℕ) → n ≡ n + 0
plus_zero n = omega arith

module _ {D R V : Type 0} (backend : Backend D R V) (shown_error : Error → Text) where
  told :
      (B : Type 0) (let_through : Clauses) (e : Error) (b : Bool)
      → passes let_through e ≡ b
      → Told {A = B} let_through
          (raise (if b then e else runtime_error (wrapped_code shown_error e)))
  told B let_through e true h = inl h
  told B let_through e false h = inr (_, refl)

  finish_call-Recorded :
      {B : Type 0} (let_through : Clauses) (sql : Text) (rows : B → ℕ) (q : Request)
      (authorized : Outcome (Text × Context)) (s : State D) (r : Outcome B × State D)
      → Kept s r.1
      → let final = finish_call backend shown_error let_through sql rows q authorized r in
        Recorded sql rows s final × Told let_through final.0
  unfolding finish_call tool_event seen
  finish_call-Recorded let_through sql rows q authorized s (ok b, s') (log, denied) =
      let e = tool_event backend shown_error sql q authorized allow_decision (rows b) none in
      (
        ((e, ap (λ xs. xs ++ e ∷ []) log, refl, refl, refl), denied ∙ plus_zero s.denied_requests),
        tt,
      )
  finish_call-Recorded {B} let_through sql rows q authorized s (raise e, s') (log, denied) =
      let event =
        tool_event backend shown_error sql q authorized deny_decision 0
          (some (code_of shown_error let_through e)) in
      (
        ((event, ap (λ xs. xs ++ event ∷ []) log, refl, refl, refl), ap (λ n. n + 1) denied),
        told B let_through e (passes let_through e) refl,
      )

  tool_call-Recorded :
      {A B : Type 0} (let_through : Clauses) (sql : Text) (rows : B → ℕ) (checked : Outcome A)
      (policy_check : State D → Outcome (Unit {0})) (action : A → D → Outcome B × D) (q : Request)
      (s : State D)
      → let final =
          tool_call backend shown_error let_through sql rows checked policy_check action q s in
        Recorded sql rows s final × Told let_through final.0
  unfolding tool_call
  tool_call-Recorded let_through sql rows (raise e) policy_check action q s =
      finish_call-Recorded let_through sql rows q (raise e) s (raise e, s) (refl, refl)
  tool_call-Recorded let_through sql rows (ok a) policy_check action q s =
      let authorized = resolve_actor_and_authorize s.auth read_level q.token q.actor in
      finish_call-Recorded let_through sql rows q authorized s _
        (attempt-Kept backend policy_check _ q authorized s (λ s. (refl, refl)))

module _ {D R V G : Type 0} (backend : Backend D R V) (shown_error : Error → Text)
    (operations : Operations D V G) where
  -- What a ping says of the instance.
  unfoldable pub answered : Ping V → Outcome (Dict V)
  answered (accessible payload) = ok payload
  answered (unreachable m) = raise (runtime_error m)

  finish_ping-Recorded :
      (q : Request) (authorized : Outcome (Text × Context)) (s : State D)
      (r : Outcome (Dict V) × State D)
      → Kept s r.1
      → let final = finish_ping backend shown_error operations q authorized r in
        Recorded ping_sql (λ x. if is_empty x then 0 else 1) s (answered final.0, final.1)
  unfolding finish_ping tool_event answered
  finish_ping-Recorded q authorized s (ok payload, s') (log, denied) =
      let rows = if is_empty payload then 0 else 1 in
      let e = tool_event backend shown_error ping_sql q authorized allow_decision rows none in
      ((e, ap (λ xs. xs ++ e ∷ []) log, refl, refl, refl), denied ∙ plus_zero s.denied_requests)
  finish_ping-Recorded q authorized s (raise e, s') (log, denied) =
      let error_code = lit "INSTANCE_UNREACHABLE: " ∷ message_of shown_error e in
      let event =
        tool_event backend shown_error ping_sql q authorized deny_decision 0 (some error_code) in
      ((event, ap (λ xs. xs ++ event ∷ []) log, refl, refl, refl), ap (λ n. n + 1) denied)

module _ {D R V G F : Type 0} (backend : Backend D R V) (exceptions : Exceptions)
    (operations : Operations D V G) (floats : Floats F)
    (execute : Text → Text → ℤ → D → Outcome (List (Row F)) × D) where
  -- Each call of `_list_tools`, of `_list_object`, of `_execute_query` and of `_top_statements`, also
  -- one that fails, adds one event to the end of the audit log, with the statement, with `allow` and
  -- the number of rows if the call returns and with `deny` if it raises; the count of denied
  -- requests grows by one exactly where it raises; and what it raises is an error that it has a
  -- clause for or a RuntimeError. A call of `_ping` never raises: it adds one event too, and it is
  -- denied exactly where the instance is said to be unreachable.
  pub instance_calls-Recorded :
      (kind sql mode prefix : Text) (registered : List Text) (number : ℕ) (top_n minutes : ℤ)
      (q : Request) (s : State D)
      → (let r = list_object backend exceptions.shown_error operations kind q s in
          Recorded (list_object_sql q.database_name kind) length s r × Told value_clause r.0)
        × (let r = list_tools backend exceptions.shown_error operations prefix registered q s in
            Recorded list_tools_sql (λ x. length x.tools) s r × Told no_clauses r.0)
        × (let r = execute_query backend exceptions.shown_error operations sql mode q s in
            Recorded sql (λ x. length x.result.rows) s r × Told both_clauses r.0)
        × (let r = top_statements backend floats exceptions execute number top_n minutes mode q s in
            Recorded
              (codes "TOP_STATEMENTS")
              (λ x. x.0.summary.statements_analyzed + x.0.summary.objects_checked)
              s
              r
            × Told both_clauses r.0)
        × (let r = ping backend exceptions.shown_error operations q s in
            Recorded ping_sql
              (λ x. if is_empty x then 0 else 1)
              s
              (answered backend exceptions.shown_error operations r.0, r.1))
  unfolding list_object list_tools execute_query top_statements ping
  instance_calls-Recorded kind sql mode prefix registered number top_n minutes q s =
      let authorized = resolve_actor_and_authorize s.auth read_level q.token q.actor in
      (
        tool_call-Recorded backend exceptions.shown_error value_clause
            (list_object_sql q.database_name kind) length (ok tt) no_policy
            (λ _. operations.list_objects q.instance_id q.database_name kind) q s,
        tool_call-Recorded backend exceptions.shown_error no_clauses list_tools_sql
            (λ x. length x.tools) (ok tt) no_policy
            (λ _.
              tools_action backend exceptions.shown_error operations
                (matching_tools prefix registered) q)
            q s,
        tool_call-Recorded backend exceptions.shown_error both_clauses sql
            (λ x. length x.result.rows) (validate_view_mode mode) _ _ q s,
        tool_call-Recorded backend exceptions.shown_error both_clauses (codes "TOP_STATEMENTS")
            (λ x. x.0.summary.statements_analyzed + x.0.summary.objects_checked)
            (check_inputs q.database_name top_n minutes mode) _ _ q s,
        finish_ping-Recorded backend exceptions.shown_error operations q authorized s _ (
            attempt-Kept backend no_policy (ping_action backend exceptions.shown_error operations q)
              q authorized s (λ s. (unfold ping_action in refl, unfold ping_action in refl))),
      )

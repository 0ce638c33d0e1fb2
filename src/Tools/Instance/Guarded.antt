-- ===== src/Tools/Instance/Guarded.antt =====
-- No statement gets round the write guard by `_execute_query`.
use mcp_sql_server.Tools.Instance.Handlers.{execute_query}
use mcp_sql_server.Tools.Inputs.{validate_view_mode}
use mcp_sql_server.Middleware.WriteGuard.Verbs.{write_refused}
use mcp_sql_server.Middleware.WriteGuard.Lead.{Lead, blank_first}
use mcp_sql_server.Middleware.WriteGuard.{enforce, write_verbs}
use mcp_sql_server.Security.Privilege.{read_level}
use mcp_sql_server.Common.{
  Error, Outcome, Outcome-cases, Text, ap, codes, elem, false, inl, inr, length, ok, raise, refl,
  true, upper, ℕ, ◌++◌, ◌∙◌, ◌∷◌, ◌≡◌,
}
use mcp_sql_server.Tools.Gate.{Backend, Request, State, allow_request, attempt, touch_session}
use mcp_sql_server.Tools.Authorize.{Context, resolve_actor_and_authorize}
use mcp_sql_server.Tools.Instance.{Clauses, Operations, both_clauses, finish_call, tool_call}
use mcp_sql_server.Db.Pool.Sequential.{raised}

module _ {D R V : Type 0} (backend : Backend D R V) (shown_error : Error → Text) where
  -- A policy that refuses, whatever the session and the quota are, keeps the call from the database.
  attempt-Refused :
      {B : Type 0} (policy_check : State D → Outcome (Unit {0}))
      (action : State D → Outcome B × State D) (q : Request) (authorized : Outcome (Text × Context))
      (s : State D) (e : Error)
      → ((t : State D) → t.write_guard ≡ s.write_guard → policy_check t ≡ raise e)
      → let r = attempt backend policy_check action q authorized s in
        (raised r.0 ≡ true) × (r.1.database ≡ s.database)
  unfolding attempt touch_session allow_request
  attempt-Refused policy_check action q (raise x) s e h = (refl, refl)
  attempt-Refused policy_check action q (ok (actor, ctx)) s e h =
      let touched = touch_session backend q actor s in
      elim (Outcome-cases touched.0) [
        | inr (x, no_touch) ↦ rw no_touch (refl, refl)
        | inl (_, in_session) ↦
            let allowed = allow_request backend q actor touched.1 in
            elim (Outcome-cases allowed.0) [
              | inr (x, no_allow) ↦ rw (in_session, no_allow) (refl, refl)
              | inl (_, in_quota) ↦ rw (in_session, in_quota, h allowed.1 refl) (refl, refl)
            ]
      ]

  finish-Refused :
      {B : Type 0} (let_through : Clauses) (sql : Text) (rows : B → ℕ) (q : Request)
      (authorized : Outcome (Text × Context)) (s : State D) (r : Outcome B × State D)
      → (raised r.0 ≡ true) × (r.1.database ≡ s.database)
      → let final = finish_call backend shown_error let_through sql rows q authorized r in
        (raised final.0 ≡ true) × (final.1.database ≡ s.database)
  unfolding finish_call
  finish-Refused let_through sql rows q authorized s (ok b, s') (raises, same) = cc
  finish-Refused let_through sql rows q authorized s (raise e, s') (raises, same) = (refl, same)

  tool_call-Refused :
      {A B : Type 0} (let_through : Clauses) (sql : Text) (rows : B → ℕ) (checked : Outcome A)
      (policy_check : State D → Outcome (Unit {0})) (action : A → D → Outcome B × D) (q : Request)
      (s : State D) (e : Error)
      → ((t : State D) → t.write_guard ≡ s.write_guard → policy_check t ≡ raise e)
      → let r =
          tool_call backend shown_error let_through sql rows checked policy_check action q s in
        (raised r.0 ≡ true) × (r.1.database ≡ s.database)
  unfolding tool_call
  tool_call-Refused let_through sql rows (raise x) policy_check action q s e h =
      finish-Refused let_through sql rows q (raise x) s (raise x, s) (refl, refl)
  tool_call-Refused let_through sql rows (ok a) policy_check action q s e h =
      let authorized = resolve_actor_and_authorize s.auth read_level q.token q.actor in
      finish-Refused let_through sql rows q authorized s _
        (attempt-Refused policy_check _ q authorized s e h)

module _ {D R V G : Type 0} (backend : Backend D R V) (shown_error : Error → Text)
    (operations : Operations D V G) where
  -- A call of `_execute_query` whose statement starts with a write verb, behind any white space, block
  -- comments that end at their first `*/` and line comments without a `/*`, raises in deny mode and
  -- leaves the database as it was, for a tool that is not in `allowed_write_tools`: also in the view
  -- mode FULL, whose plan is not asked for.
  pub query_write_refused :
      (mode : Text) (q : Request) (s : State D) {p : Text} (lead : Lead p) (c : ℕ) (v t : Text)
      → s.write_guard.policy.write_mode_default ≡ codes "deny"
      → elem q.tool s.write_guard.policy.allowed_write_tools ≡ false
      → elem (upper (c ∷ v)) write_verbs ≡ true
      → blank_first t ≡ true
      → let r = execute_query backend shown_error operations (p ++ ((c ∷ v) ++ t)) mode q s in
        (raised r.0 ≡ true) × (r.1.database ≡ s.database)
  unfolding execute_query
  query_write_refused mode q s {p} lead c v t deny unlisted verb blank =
      let sql = p ++ ((c ∷ v) ++ t) in
      let refused = write_refused s.write_guard q.tool lead c v t deny unlisted verb blank in
      tool_call-Refused backend shown_error both_clauses sql (λ r. length r.result.rows)
        (validate_view_mode mode) _ _ q s _
        (λ t same. ap (λ g. enforce g q.tool sql) same ∙ refused)

-- ===== src/Tools/Gate/Events.antt =====
-- What the event of a call says.
use mcp_sql_server.Common.{
  Error, List, Message, Outcome, Text, database_error, http_exception, length, none, ok,
  other_error, permission_error, raise, refl, runtime_error, some, timeout_error, type_error,
  value_error, ℕ, ◌≡◌,
}
use mcp_sql_server.Tools.Gate.{
  Backend, Event, Request, allow_decision, denials, deny_decision, event_of, is_denial,
}
use mcp_sql_server.Tools.Authorize.{Context, error_code_of}

-- The event names the caller as the authorisation does; without one, as the request does.
abbrev pub Named : Text → Outcome (Text × Context) → Event → Type 0
Named actor (ok (resolved, ctx)) e = (e.actor ≡ resolved) × (e.auth_ctx ≡ some ctx)
Named actor (raise x) e = (e.actor ≡ actor) × (e.auth_ctx ≡ none)

-- What an event says of the end of its call: a refusal has the code that it was raised with, any
-- other error a code of its own.
abbrev pub Told : {R : Type 0} → Outcome (List R) → Event → Type 0
Told (ok rows) e = (e.decision ≡ allow_decision) × (e.rows ≡ length rows) × (e.error_code ≡ none)
Told (raise x) e =
    (e.decision ≡ deny_decision)
    × (e.rows ≡ 0)
    × ((code : Message) × (e.error_code ≡ some code)
        × ((m : Message) → x ≡ permission_error m → code ≡ m))

-- The PermissionErrors among the ends of one call.
abbrev pub refusals : {R : Type 0} → Outcome (List R) → ℕ
refusals (ok rows) = 0
refusals (raise (permission_error m)) = 1
refusals (raise (value_error m)) = 0
refusals (raise (type_error m)) = 0
refusals (raise (timeout_error m)) = 0
refusals (raise (runtime_error m)) = 0
refusals (raise (http_exception n m)) = 0
refusals (raise (database_error args)) = 0
refusals (raise (other_error n m)) = 0

module _ {D R V : Type 0} (backend : Backend D R V) where
  pub event-Named :
      (sql : Text) (q : Request) (authorized : Outcome (Text × Context)) (o : Outcome (List R))
      → Named q.actor authorized (event_of backend sql q authorized o)
  unfolding event_of
  event-Named sql q (ok (actor, ctx)) (ok rows) = (refl, refl)
  event-Named sql q (ok (actor, ctx)) (raise e) = (refl, refl)
  event-Named sql q (raise x) (ok rows) = (refl, refl)
  event-Named sql q (raise x) (raise e) = (refl, refl)

  refusal_code : (x : Error) (m : Message) → x ≡ permission_error m → error_code_of x ≡ m
  unfolding error_code_of
  refusal_code x m h = rw h refl

  pub event-Told :
      (sql : Text) (q : Request) (authorized : Outcome (Text × Context)) (o : Outcome (List R))
      → Told o (event_of backend sql q authorized o)
  unfolding event_of
  event-Told sql q authorized (ok rows) = (refl, refl, refl)
  event-Told sql q authorized (raise x) = (refl, refl, (error_code_of x, refl, refusal_code x))

  pub event-request :
      (sql : Text) (q : Request) (authorized : Outcome (Text × Context)) (o : Outcome (List R))
      → let e = event_of backend sql q authorized o in
        (e.request_id ≡ q.request_id)
        × (e.tool ≡ q.tool)
        × (e.instance_id ≡ q.instance_id)
        × (e.sql ≡ sql)
  unfolding event_of
  event-request sql q authorized (ok rows) = (refl, refl, refl, refl)
  event-request sql q authorized (raise x) = (refl, refl, refl, refl)

  pub denials-refusals : (o : Outcome (List R)) → denials backend o ≡ refusals o
  unfolding is_denial
  denials-refusals (ok rows) = refl
  denials-refusals (raise (permission_error m)) = refl
  denials-refusals (raise (value_error m)) = refl
  denials-refusals (raise (type_error m)) = refl
  denials-refusals (raise (timeout_error m)) = refl
  denials-refusals (raise (runtime_error m)) = refl
  denials-refusals (raise (http_exception n m)) = refl
  denials-refusals (raise (database_error args)) = refl
  denials-refusals (raise (other_error n m)) = refl

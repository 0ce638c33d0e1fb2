-- ===== src/Security/Sessions/Renewal.antt =====
-- A session that is touched again and again: `_cleanup` has no other time than the last touch.
use mcp_sql_server.Common.{
  Dict, IsDict, List, Option, Outcome, Text, [], arith, false, insert, insert-IsDict, is_empty,
  lookup, lookup-insert, lookup-keep_items, ok, or_default, raise, refl, some, text_eq_iff,
  text_eq_refl, ℕ, ℤ, ◌∷◌, ◌≡◌, ◌≤ℤ◌,
}
use mcp_sql_server.Security.Sessions.Limit.{live_sessions, sessions_of-touch, touch_refused}
use mcp_sql_server.Security.Sessions.Expiry.{IsTable, cleanup-IsTable}
use mcp_sql_server.Security.Sessions.{
  SessionManager, cleanup_actors, expired, live, older, session_key, sessions_of, touch,
}

insert-IsTable :
    (k : Text) (s : Dict ℕ) (d : Dict (Dict ℕ)) → IsDict s → IsTable d → IsTable (insert k s d)
unfolding lookup insert
insert-IsTable k s [] h t = (refl, h, tt)
insert-IsTable k s ((j, w) ∷ d) h t =
    ground (arith, text_eq_iff k j, text_eq_iff j k, lookup-insert k j s d, insert-IsTable k s d)

sessions_of-IsDict :
    (a : Text) (d : Dict (Dict ℕ)) → IsTable d → IsDict (or_default (lookup a d) [])
unfolding lookup
sessions_of-IsDict a [] t = tt
sessions_of-IsDict a ((b, s) ∷ d) t = ground (arith, sessions_of-IsDict a d)

sessions_of_distinct :
    (m : SessionManager) (a : Text) → IsTable m.sessions → IsDict (sessions_of m a)
unfolding sessions_of
sessions_of_distinct m a t = sessions_of-IsDict a m.sessions t

-- A touch keeps the keys of both levels of the table distinct.
pub touch-IsTable :
    (m : SessionManager) (now cleanup_now : ℕ) (actor request_id : Text) (mcp_id : Option Text)
    → IsTable m.sessions
    → IsTable (touch m now cleanup_now actor request_id mcp_id).1.sessions
unfolding touch
touch-IsTable m now cleanup_now actor request_id mcp_id t =
    let key = session_key request_id mcp_id in
    let d = cleanup_actors (live m cleanup_now) m.sessions in
    let s = or_default (lookup actor d) [] in
    let cleaned = cleanup-IsTable (live m cleanup_now) m.sessions t in
    let s_dict = sessions_of-IsDict actor d cleaned in
    ground (
      arith,
      cleaned,
      s_dict,
      insert-IsTable actor s d,
      insert-IsDict key now s s_dict,
      insert-IsTable actor (insert key now s) (insert actor s d),
    )

touch_config :
    (m : SessionManager) (now cleanup_now : ℕ) (actor request_id : Text) (mcp_id : Option Text)
    → let m' = (touch m now cleanup_now actor request_id mcp_id).1 in
      (m'.ttl ≡ m.ttl) × (m'.idle ≡ m.idle)
unfolding touch
touch_config m now cleanup_now actor request_id mcp_id = ground arith

-- Touches of one MCP session by its actor at the times of the list (the time of the touch and that
-- of its clean-up), each with its request id, up to the first that raises.
unfoldable pub touches :
    SessionManager → Text → Text → List (ℕ × ℕ × Text) → Outcome (Unit {0}) × SessionManager
touches m actor sid [] = (ok tt, m)
touches m actor sid ((now, cleanup_now, request_id) ∷ rest) =
    let (result, m') = touch m now cleanup_now actor request_id (some sid) in
    elim result [ ok _ ↦ touches m' actor sid rest | raise e ↦ (raise e, m') ]

-- No clean-up on the way finds the session's last touch too old.
abbrev pub InTime : ℤ → ℤ → ℕ → List (ℕ × ℕ × Text) → Type 0
InTime ttl idle last [] = Unit {0}
InTime ttl idle last ((now, cleanup_now, _) ∷ rest) =
    (older cleanup_now last ttl ≡ false)
    × (older cleanup_now last idle ≡ false)
    × InTime ttl idle now rest

abbrev pub last_touch : ℕ → List (ℕ × ℕ × Text) → ℕ
last_touch t [] = t
last_touch t ((now, _, _) ∷ rest) = last_touch now rest

renew :
    (m : SessionManager) (t now cleanup_now : ℕ) (actor request_id sid : Text)
    → IsTable m.sessions
    → is_empty sid ≡ false
    → lookup sid (sessions_of m actor) ≡ some t
    → older cleanup_now t m.ttl ≡ false
    → older cleanup_now t m.idle ≡ false
    → ((touch m now cleanup_now actor request_id (some sid)).0 ≡ ok tt)
      × (lookup sid (sessions_of (touch m now cleanup_now actor request_id (some sid)).1 actor)
          ≡ some now)
unfolding expired
renew m t now cleanup_now actor request_id sid table named held young active = ground (
  arith,
  touch_refused m now cleanup_now actor request_id (some sid) table,
  sessions_of-touch m now cleanup_now actor actor request_id (some sid) table,
  lookup-keep_items (live m cleanup_now) sid (sessions_of m actor),
  sessions_of_distinct m actor table,
  text_eq_refl actor,
  text_eq_refl sid,
  lookup-insert sid sid now (live_sessions m cleanup_now actor),
)

-- A session that its actor touches before the TTL and the inactivity timeout since the last touch
-- have passed is never refused and never expires: however long the touches go on and however
-- many other sessions the actor has, each one returns, and the session is stored with the time of
-- the last. The time at which the session began plays no part.
pub touches_renew :
    (m : SessionManager) (t : ℕ) (actor sid : Text) (times : List (ℕ × ℕ × Text))
    → IsTable m.sessions
    → is_empty sid ≡ false
    → lookup sid (sessions_of m actor) ≡ some t
    → InTime m.ttl m.idle t times
    → ((touches m actor sid times).0 ≡ ok tt)
      × (lookup sid (sessions_of (touches m actor sid times).1 actor) ≡ some (last_touch t times))
unfolding touches
touches_renew m t actor sid [] table named held h = (refl, held)
touches_renew m t actor sid ((now, cleanup_now, request_id) ∷ rest) table named held h =
    let m' = (touch m now cleanup_now actor request_id (some sid)).1 in
    let (returns, stored) =
      renew m t now cleanup_now actor request_id sid table named held h.0 h.1 in
    let (same_ttl, same_idle) = touch_config m now cleanup_now actor request_id (some sid) in
    let ih =
      touches_renew m' now actor sid rest
        (touch-IsTable m now cleanup_now actor request_id (some sid) table) named stored
        (rw (same_ttl, same_idle) h.2) in
    rw (returns, touches) ih

-- Where the TTL is at least the inactivity timeout, as in the shipped configuration, it has no
-- effect: a session is expired exactly when its last touch is older than the inactivity timeout.
pub expired-idle :
    (m : SessionManager) (now t : ℕ) → m.idle ≤ℤ m.ttl → expired m now t ≡ older now t m.idle
unfolding expired older
expired-idle m now t h = ground arith

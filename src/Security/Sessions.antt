-- ===== src/Security/Sessions.antt =====
-- security/session_manager.py: `SessionManager`, the sessions of each actor with their last touch.
-- Times are microseconds.
pub mod Expiry
pub mod Limit
pub mod Renewal
use mcp_sql_server.Common.{
  Bool, Dict, Error, List, Option, Outcome, Text, [], arith, false, has_key, if◌then◌else◌, insert,
  is_empty, keep_items, leb_ℤ, length, lookup, ltb_ℤ, none, not, ok, or_default, permission_error,
  pos, raise, refl, some, sub_ℕ, suc, text_of, true, ℕ, ℤ, ◌&&◌, ◌*ℤ◌, ◌*◌, ◌+◌, ◌||◌, ◌∷◌, ◌≡◌,
}

abbrev pub second : ℕ
second = 1000000

pub record SessionManager : Type 0 where
  pub ttl : ℤ
  pub idle : ℤ
  pub limit : ℤ
  pub sessions : Dict (Dict ℕ)

unfoldable pub init : ℤ → ℤ → ℤ → SessionManager
init session_ttl_minutes inactivity_timeout_minutes concurrent_sessions_limit = record {
  ttl = session_ttl_minutes *ℤ 60;
  idle = inactivity_timeout_minutes *ℤ 60;
  limit = concurrent_sessions_limit;
  sessions = [];
}

-- `now - t > s`, for `s` in seconds.
unfoldable pub older : ℕ → ℕ → ℤ → Bool
unfolding ◌*ℤ◌
older now t s = ltb_ℤ (s *ℤ second) (sub_ℕ now t)

-- The test of `_cleanup`: both of its variables are read from the one stored time.
unfoldable pub expired : SessionManager → ℕ → ℕ → Bool
expired m now t =
    let started = t in let last_seen = t in older now started m.ttl || older now last_seen m.idle

abbrev pub live : SessionManager → ℕ → Text → ℕ → Bool
live m now sid t = not (expired m now t)

pub cleanup_actors : (Text → ℕ → Bool) → Dict (Dict ℕ) → Dict (Dict ℕ)
cleanup_actors p [] = []
cleanup_actors p ((actor, sessions) ∷ rest) =
    let left = keep_items p sessions in
    if is_empty left then cleanup_actors p rest else (actor, left) ∷ cleanup_actors p rest

unfoldable pub cleanup : SessionManager → ℕ → SessionManager
unfolding cleanup_actors
cleanup m now = record m { sessions = cleanup_actors (live m now) m.sessions }

abbrev pub session_limit_exceeded : Error
session_limit_exceeded = permission_error (text_of "SESSION_LIMIT_EXCEEDED")

-- `mcp_session_id or request_id`
abbrev pub session_key : Text → Option Text → Text
session_key request_id none = request_id
session_key request_id (some mcp_session_id) =
    if is_empty mcp_session_id then request_id else mcp_session_id

-- The sessions stored for an actor, `{}` if it has none.
unfoldable pub sessions_of : SessionManager → Text → Dict ℕ
sessions_of m actor = or_default (lookup actor m.sessions) []

-- The part of `touch` after the clean-up. `setdefault` stores the empty dictionary of a new actor
-- also where the call raises.
unfoldable pub admit : SessionManager → ℕ → Text → Text → Outcome (Unit {0}) × SessionManager
unfolding sessions_of
admit m now actor key =
    let actor_sessions = sessions_of m actor in
    let stored = insert actor actor_sessions m.sessions in
    if not (has_key key actor_sessions) && leb_ℤ m.limit (pos (length actor_sessions))
    then (raise session_limit_exceeded, record m { sessions = stored })
    else (ok tt, record m { sessions = insert actor (insert key now actor_sessions) stored })

-- `now` is read before the lock is taken and `cleanup_now` under it.
unfoldable pub touch :
    SessionManager → ℕ → ℕ → Text → Text → Option Text → Outcome (Unit {0}) × SessionManager
unfolding cleanup admit
touch m now cleanup_now actor request_id mcp_session_id =
    admit (cleanup m cleanup_now) now actor (session_key request_id mcp_session_id)

count_sessions : Dict (Dict ℕ) → ℕ
count_sessions [] = 0
count_sessions ((_, sessions) ∷ rest) = length sessions + count_sessions rest

unfoldable pub active_count : SessionManager → ℕ → Option Text → ℕ × SessionManager
unfolding cleanup count_sessions sessions_of
active_count m now actor =
    let cleaned = cleanup m now in
    elim actor [
      | none ↦ (count_sessions cleaned.sessions, cleaned)
      | some a ↦ (length (sessions_of cleaned a), cleaned)
    ]

-- ===== src/Security/Sessions/Limit.antt =====
-- The limit on an actor's concurrent sessions, and what one touch does.
use mcp_sql_server.Security.Sessions.Expiry.{IsTable, sessions_of-cleanup}
use mcp_sql_server.Common.{
  Bool, Dict, Option, Text, [], arith, has_key, if◌then◌else◌, insert, keep_items, leb_ℤ, length,
  lookup, lookup-insert, not, ok, pos, pos_part, raise, text_eq, text_eq_iff, ℕ, ◌&&◌, ◌+◌, ◌∷◌,
  ◌≡◌, ◌≤◌,
}
use mcp_sql_server.Security.Sessions.{
  SessionManager, admit, cleanup, live, session_key, session_limit_exceeded, sessions_of, touch,
}

-- `touch` refuses: the key is new to the actor and the actor is at its limit.
abbrev refused : SessionManager → Text → Text → Bool
refused m actor key =
    not (has_key key (sessions_of m actor)) && leb_ℤ m.limit (pos (length (sessions_of m actor)))

sessions_of-admit :
    (m : SessionManager) (now : ℕ) (actor other key : Text)
    → sessions_of (admit m now actor key).1 other ≡ (
        if text_eq actor other
        then (if refused m actor key
            then sessions_of m actor
            else insert key now (sessions_of m actor))
        else sessions_of m other)
unfolding admit sessions_of
sessions_of-admit m now actor other key =
    let s = sessions_of m actor in
    ground (
      arith,
      text_eq_iff actor other,
      lookup-insert actor other s m.sessions,
      lookup-insert actor other (insert key now s) (insert actor s m.sessions),
    )

result-admit :
    (m : SessionManager) (now : ℕ) (actor key : Text)
    → (admit m now actor key).0
      ≡ (if refused m actor key then raise session_limit_exceeded else ok tt)
unfolding admit
result-admit m now actor key = ground arith

length-insert-le :
    (k : Text) (v : ℕ) (d : Dict ℕ)
    → length (insert k v d) ≡ (if has_key k d then length d else length d + 1)
unfolding insert lookup
length-insert-le k v [] = omega arith
length-insert-le k v ((j, w) ∷ d) = ground (arith, length-insert-le k v d, text_eq_iff j k)

-- Every actor is within the limit.
abbrev pub IsBounded : SessionManager → Type 0
IsBounded m = (actor : Text) → length (sessions_of m actor) ≤ pos_part m.limit

length-keep_items-le : (p : Text → ℕ → Bool) (d : Dict ℕ) → length (keep_items p d) ≤ length d
unfolding keep_items
length-keep_items-le p [] = omega arith
length-keep_items-le p ((k, v) ∷ d) = ground (arith, length-keep_items-le p d)

cleanup-IsBounded :
    (m : SessionManager) (now : ℕ) → IsTable m.sessions → IsBounded m → IsBounded (cleanup m now)
unfolding cleanup
cleanup-IsBounded m now t b actor =
    rw (sessions_of-cleanup m now actor t)
      (omega (arith, length-keep_items-le (live m now) (sessions_of m actor), b actor))

limit-admit :
    (m : SessionManager) (now : ℕ) (actor key : Text) → (admit m now actor key).1.limit ≡ m.limit
unfolding admit
limit-admit m now actor key = ground arith

admit-IsBounded :
    (m : SessionManager) (now : ℕ) (actor key : Text)
    → IsBounded m
    → IsBounded (admit m now actor key).1
admit-IsBounded m now actor key b other =
    let s = sessions_of m actor in
    ground (
      arith,
      sessions_of-admit m now actor other key,
      limit-admit m now actor key,
      length-insert-le key now s,
      b actor,
      b other,
    )

-- A touch leaves no actor with more sessions than `concurrent_sessions_limit`, or than none where
-- the limit is negative, if none had more before.
pub touch-IsBounded :
    (m : SessionManager) (now cleanup_now : ℕ) (actor request_id : Text) (mcp_id : Option Text)
    → IsTable m.sessions
    → IsBounded m
    → IsBounded (touch m now cleanup_now actor request_id mcp_id).1
unfolding touch
touch-IsBounded m now cleanup_now actor request_id mcp_id t b =
    admit-IsBounded (cleanup m cleanup_now) now actor (session_key request_id mcp_id)
      (cleanup-IsBounded m cleanup_now t b)

-- The sessions of an actor that a clean-up at this time leaves.
abbrev pub live_sessions : SessionManager → ℕ → Text → Dict ℕ
live_sessions m now actor = keep_items (live m now) (sessions_of m actor)

-- A touch raises SESSION_LIMIT_EXCEEDED exactly when its key (the MCP session id if there is one
-- that is not empty, else the request id) is no live session of the actor and the actor's live
-- sessions have reached the limit. Otherwise it returns.
pub touch_refused :
    (m : SessionManager) (now cleanup_now : ℕ) (actor request_id : Text) (mcp_id : Option Text)
    → IsTable m.sessions
    → let key = session_key request_id mcp_id in
      let mine = live_sessions m cleanup_now actor in
      (touch m now cleanup_now actor request_id mcp_id).0 ≡ (
        if not (has_key key mine) && leb_ℤ m.limit (pos (length mine))
        then raise session_limit_exceeded
        else ok tt)
unfolding touch cleanup
touch_refused m now cleanup_now actor request_id mcp_id t = ground (
  arith,
  sessions_of-cleanup m cleanup_now actor t,
  result-admit (cleanup m cleanup_now) now actor (session_key request_id mcp_id),
)

-- What a touch leaves: the live sessions of every other actor, and of the actor itself its live
-- sessions, with the key touched now unless the call raised.
pub sessions_of-touch :
    (m : SessionManager) (now cleanup_now : ℕ) (actor other request_id : Text)
    (mcp_id : Option Text)
    → IsTable m.sessions
    → let key = session_key request_id mcp_id in
      let mine = live_sessions m cleanup_now actor in
      sessions_of (touch m now cleanup_now actor request_id mcp_id).1 other ≡ (
        if text_eq actor other
        then (if not (has_key key mine) && leb_ℤ m.limit (pos (length mine))
            then mine
            else insert key now mine)
        else live_sessions m cleanup_now other)
unfolding touch cleanup
sessions_of-touch m now cleanup_now actor other request_id mcp_id t = ground (
  arith,
  sessions_of-cleanup m cleanup_now actor t,
  sessions_of-cleanup m cleanup_now other t,
  sessions_of-admit (cleanup m cleanup_now) now actor other (session_key request_id mcp_id),
)

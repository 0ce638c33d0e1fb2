-- ===== src/Tests/Sessions.antt =====
-- security/session_manager.py at concrete times.
use mcp_sql_server.Security.Sessions.Renewal.{InTime, touches, touches_renew}
use mcp_sql_server.Security.Sessions.Limit.{IsBounded, touch-IsBounded, touch_refused}
use mcp_sql_server.Common.{
  List, Text, [], arith, codes, keep_items, lookup, none, ok, pos, raise, refl, some, text_eq, ℕ,
  ◌*ℤ◌, ◌∷◌, ◌≡◌,
}
use mcp_sql_server.Security.Sessions.Expiry.{IsTable}
use mcp_sql_server.Security.Sessions.{
  SessionManager, expired, older, session_limit_exceeded, sessions_of, touch,
}

abbrev alice : Text
alice = codes "alice"

abbrev bob : Text
bob = codes "bob"

-- A TTL of 60 minutes, 5 minutes of inactivity, 1 session for each actor.
abbrev shop : SessionManager
shop = record {
  ttl = pos 3600;
  idle = pos 300;
  limit = pos 1;
  sessions = (alice, (codes "s1", 1000000) ∷ []) ∷ (bob, (codes "s2", 2000000) ∷ []) ∷ [];
}

shop-IsTable : IsTable shop.sessions
unfolding lookup text_eq
shop-IsTable = (refl, (refl, tt), (refl, (refl, tt), tt))

shop-IsBounded : IsBounded shop
unfolding sessions_of lookup
shop-IsBounded a = ground arith

touch-IsBounded_example : IsBounded (touch shop 5000000 5000001 alice (codes "r1") none).1
touch-IsBounded_example =
    touch-IsBounded shop 5000000 5000001 alice (codes "r1") none shop-IsTable shop-IsBounded

-- alice has her one session, and a request without it is refused.
touch_refused_example :
    (touch shop 5000000 5000001 alice (codes "r1") none).0 ≡ raise session_limit_exceeded
unfolding lookup text_eq keep_items expired sessions_of ◌*ℤ◌ older
touch_refused_example = touch_refused shop 5000000 5000001 alice (codes "r1") none shop-IsTable

abbrev hours : List (ℕ × ℕ × Text)
hours =
    (200000000, 200000001, codes "r1")
    ∷ (400000000, 400000001, codes "r2")
    ∷ (600000000, 600000001, codes "r3")
    ∷ []

in_time : InTime shop.ttl shop.idle 1000000 hours
unfolding older
in_time = (refl, refl, (refl, refl, (refl, refl, tt)))

touches_renew_example :
    ((touches shop alice (codes "s1") hours).0 ≡ ok tt)
    × (lookup (codes "s1") (sessions_of (touches shop alice (codes "s1") hours).1 alice)
        ≡ some 600000000)
unfolding lookup text_eq sessions_of
touches_renew_example =
    touches_renew shop 1000000 alice (codes "s1") hours shop-IsTable refl refl in_time

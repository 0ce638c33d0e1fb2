-- ===== src/Tests/RateLimits.antt =====
-- middleware/rate_limiter.py at concrete times.
use mcp_sql_server.Common.{
  List, Text, [], arith, codes, count, insert, lookup, negsuc, ok, pos, refl, text_eq, ◌+ℤ◌, ◌+◌,
  ◌∷◌, ◌≡◌, ◌≤◌,
}
use mcp_sql_server.Middleware.RateLimit.Quotas.{admitted, allow_exact, quotas_hold}
use mcp_sql_server.Middleware.RateLimit.Admission.{Call, run, times, times_of}
use mcp_sql_server.Middleware.RateLimit.Window.{within}
use mcp_sql_server.Middleware.RateLimit.{allow, init, prune, window}

abbrev alice : Text
alice = codes "alice"

-- Two calls a minute for each actor: the third is refused, the fourth comes after the window.
abbrev calls : List Call
calls = (0, alice) ∷ (1000000, alice) ∷ (2000000, alice) ∷ (61500000, alice) ∷ []

admitted-calls :
    admitted (pos 1) (pos 1) (pos 10) (negsuc 0) calls
    ≡ (61500000, alice) ∷ (1000000, alice) ∷ (0, alice) ∷ []
unfolding run init allow prune lookup insert text_eq ◌+ℤ◌
admitted-calls = refl

quotas_hold_example :
    let log = admitted (pos 1) (pos 1) (pos 10) (negsuc 0) calls in
    (count (within 500000 (500000 + window)) (times log) ≤ 9)
    × (count (within 500000 (500000 + window)) (times_of alice log) ≤ 2)
unfolding ◌+ℤ◌
quotas_hold_example =
    quotas_hold (pos 1) (pos 1) (pos 10) (negsuc 0) calls 500000 alice (omega arith)

allow_exact_example :
    (allow (run (init (pos 1) (pos 1) (pos 10) (negsuc 0)) [] calls).0 62000000 alice).0 ≡ ok tt
unfolding run init allow prune lookup insert text_eq count ◌+ℤ◌
allow_exact_example =
    allow_exact (pos 1) (pos 1) (pos 10) (negsuc 0) calls 62000000 alice (omega arith) (omega arith)

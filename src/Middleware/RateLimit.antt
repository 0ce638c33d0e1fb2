-- ===== src/Middleware/RateLimit.antt =====
-- middleware/rate_limiter.py: `SlidingWindowRateLimiter`. Times are microseconds; a deque is the
-- list of its entries, the left end first.
pub mod Window
pub mod Admission
pub mod Quotas
use mcp_sql_server.Common.{
  Bool, Dict, Error, List, Outcome, Text, [], if◌then◌else◌, insert, leb_ℤ, length, lookup, ltb, ok,
  or_default, permission_error, pos, raise, text_of, ℕ, ℤ, ◌++◌, ◌+ℤ◌, ◌+◌, ◌∷◌,
}

pub record Limiter : Type 0 where
  pub actor_rpm : ℤ
  pub actor_burst : ℤ
  pub global_rpm : ℤ
  pub global_burst : ℤ
  pub actor_events : Dict (List ℕ)
  pub global_events : List ℕ

unfoldable pub init : ℤ → ℤ → ℤ → ℤ → Limiter
init actor_rpm actor_burst global_rpm global_burst = record {
  actor_rpm = actor_rpm;
  actor_burst = actor_burst;
  global_rpm = global_rpm;
  global_burst = global_burst;
  actor_events = [];
  global_events = [];
}

-- 60.0 seconds
abbrev pub window : ℕ
window = 60000000

-- `t < now - 60.0`
abbrev pub is_old : ℕ → ℕ → Bool
is_old now t = ltb (t + window) now

-- The loop of `_prune`.
unfoldable pub prune : ℕ → List ℕ → List ℕ
prune now [] = []
prune now (t ∷ bucket) = let rest = prune now bucket in if is_old now t then rest else t ∷ bucket

abbrev pub bucket_of : Limiter → Text → List ℕ
bucket_of l actor = or_default (lookup actor l.actor_events) []

abbrev pub actor_quota_exceeded : Error
actor_quota_exceeded = permission_error (text_of "RATE_LIMIT_EXCEEDED: actor quota exceeded")

abbrev pub global_quota_exceeded : Error
global_quota_exceeded = permission_error (text_of "RATE_LIMIT_EXCEEDED: global quota exceeded")

abbrev pub actor_limit : Limiter → ℤ
actor_limit l = l.actor_rpm +ℤ l.actor_burst

abbrev pub global_limit : Limiter → ℤ
global_limit l = l.global_rpm +ℤ l.global_burst

-- Both deques are pruned in place, and stay pruned where the call raises.
unfoldable pub allow : Limiter → ℕ → Text → Outcome (Unit {0}) × Limiter
allow l now actor =
    let actor_bucket = prune now (bucket_of l actor) in
    let global_bucket = prune now l.global_events in
    let pruned = record l {
      actor_events = insert actor actor_bucket l.actor_events;
      global_events = global_bucket;
    } in
    if leb_ℤ (actor_limit l) (pos (length actor_bucket))
    then (raise actor_quota_exceeded, pruned)
    else if leb_ℤ (global_limit l) (pos (length global_bucket))
    then (raise global_quota_exceeded, pruned)
    else (
      ok tt,
      record pruned {
        actor_events = insert actor (actor_bucket ++ now ∷ []) pruned.actor_events;
        global_events = global_bucket ++ now ∷ [];
      },
    )

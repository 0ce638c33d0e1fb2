-- ===== src/Middleware/Redis.antt =====
-- middleware/rate_limiter.py: `RedisSlidingWindowRateLimiter` and `build_rate_limiter`. Times are
-- milliseconds. The server is a parameter: the commands that the script calls, on its state `D`.
pub mod Sets
pub mod Holds
pub mod Script
pub mod Tracks
pub mod Stored
pub mod Served
pub mod Quotas
use mcp_sql_server.Middleware.RateLimit.{Limiter, actor_quota_exceeded, global_quota_exceeded, init}
use mcp_sql_server.Db.Columns.{decimal, show}
use mcp_sql_server.Common.{
  Error, Option, Outcome, Text, [], codes, if◌then◌else◌, is_empty, leb_ℤ, lower, not, ok,
  or_default, permission_error, pos, raise, strip, sub_ℕ, text_eq, text_of, value_error, ℕ, ℤ, ◌++◌,
  ◌+ℤ◌, ◌==◌, ◌∷◌,
}

pub record Redis (D : Type 0) : Type 0 where
  pub zremrangebyscore : Text → ℕ → ℤ → D → D
  pub zcard : Text → D → ℕ
  pub zadd : Text → ℕ → Text → D → D
  pub expire : Text → ℕ → D → D

pub record RedisLimiter : Type 0 where
  pub actor_limit : ℤ
  pub global_limit : ℤ
  pub namespace : Text
  pub window_ms : ℕ
  pub ttl_sec : ℕ

unfoldable pub init_redis : ℤ → ℤ → ℤ → ℤ → Text → RedisLimiter
init_redis actor_rpm actor_burst global_rpm global_burst namespace = record {
  actor_limit = actor_rpm +ℤ actor_burst;
  global_limit = global_rpm +ℤ global_burst;
  namespace = namespace;
  window_ms = 60000;
  ttl_sec = 120;
}

abbrev pub actor_key : RedisLimiter → Text → Text
actor_key l actor = l.namespace ++ (codes ":actor:" ++ actor)

abbrev pub global_key : RedisLimiter → Text
global_key l = l.namespace ++ codes ":global"

-- `f"{now_ms}:{uuid.uuid4().hex}"`
unfoldable pub member_of : ℕ → Text → Text
unfolding decimal
member_of now_ms uuid = show now_ms ++ b':' ∷ uuid

abbrev pub unknown_result : Error
unknown_result = permission_error (text_of "RATE_LIMIT_EXCEEDED: backend returned unknown result")

module _ {D : Type 0} (redis : Redis D) where
  -- `_LUA`: the server runs it as one step.
  unfoldable pub script : Text → Text → ℤ → ℤ → ℕ → ℕ → Text → ℕ → D → ℕ × D
  script actor_key global_key actor_limit global_limit now_ms window_ms member ttl_sec d =
      let cutoff = sub_ℕ now_ms window_ms in
      let pruned =
        redis.zremrangebyscore global_key 0 cutoff (redis.zremrangebyscore actor_key 0 cutoff d) in
      let added = redis.zadd global_key now_ms member (redis.zadd actor_key now_ms member pruned) in
      if leb_ℤ actor_limit (pos (redis.zcard actor_key pruned))
      then (2, pruned)
      else if leb_ℤ global_limit (pos (redis.zcard global_key pruned))
      then (3, pruned)
      else (1, redis.expire global_key ttl_sec (redis.expire actor_key ttl_sec added))

  unfoldable pub result_of : ℕ → Outcome (Unit {0})
  result_of code =
      if code == 2
      then raise actor_quota_exceeded
      else if code == 3
      then raise global_quota_exceeded
      else if not (code == 1)
      then raise unknown_result
      else ok tt

  unfoldable pub allow_redis : RedisLimiter → ℕ → Text → Text → D → Outcome (Unit {0}) × D
  unfolding script result_of member_of
  allow_redis l now_ms uuid actor d =
      let (code, d') =
        script (actor_key l actor) (global_key l) l.actor_limit l.global_limit now_ms l.window_ms
          (member_of now_ms uuid) l.ttl_sec d in
      (result_of code, d')

pub data RateLimiter : Type 0 where
  in_memory : Limiter → RateLimiter
  in_redis : Text → RedisLimiter → RateLimiter

abbrev pub redis_url_required : Error
redis_url_required =
    value_error (text_of "FASTMCP_REDIS_URL is required when FASTMCP_RATE_LIMIT_BACKEND=redis")

-- `build_rate_limiter`, where the Redis package is installed.
unfoldable pub build_rate_limiter : Text → ℤ → ℤ → ℤ → ℤ → Option Text → Text → Outcome RateLimiter
unfolding init init_redis strip text_eq
build_rate_limiter backend actor_rpm actor_burst global_rpm global_burst redis_url namespace =
    if text_eq (lower (strip backend)) (codes "redis")
    then if is_empty (or_default redis_url [])
      then raise redis_url_required
      else ok (
          in_redis (or_default redis_url [])
            (init_redis actor_rpm actor_burst global_rpm global_burst namespace))
    else ok (in_memory (init actor_rpm actor_burst global_rpm global_burst))

-- ===== src/Middleware/Redis/Served.antt =====
-- One call of the limiter, and a history of calls, against the log of all admitted calls.
use mcp_sql_server.Middleware.Redis.Stored.{stored-Tracks}
use mcp_sql_server.Middleware.Redis.Tracks.{
  Call, Tracks, Tracks-used, elapse-Tracks, entries, entries_of, entry, pruned-Tracks, pruned-clock,
  zcard-global, zcard-own,
}
use mcp_sql_server.Middleware.Redis.Script.{pruned, stored}
use mcp_sql_server.Middleware.Redis.Holds.{live}
use mcp_sql_server.Middleware.Redis.Sets.{IsDocumented, View}
use mcp_sql_server.Middleware.Redis.{
  Redis, RedisLimiter, actor_key, allow_redis, global_key, result_of, script,
}
use mcp_sql_server.Middleware.RateLimit.{
  actor_limit, actor_quota_exceeded, global_limit, global_quota_exceeded,
}
use mcp_sql_server.Common.{
  Bool-cases, Error, List, Outcome, Text, [], all, arith, count, elem, false, if◌then◌else◌, inl,
  inr, leb_ℤ, ok, pos, raise, ℕ, ℤ, ◌*◌, ◌∙◌, ◌∷◌, ◌≡◌, ◌≤◌, ◌⊎◌,
}

-- The clock does not go back, and no identifier is used twice.
abbrev pub Ticks : ℕ → List Call → Type 0
Ticks p [] = Unit {0}
Ticks p (c ∷ calls) = (p ≤ c.time) × Ticks c.time calls

abbrev pub IsFresh : List Text → List Call → Type 0
IsFresh used [] = Unit {0}
IsFresh used (c ∷ calls) = (elem (entry c).1 used ≡ false) × IsFresh ((entry c).1 ∷ used) calls

-- What a decision should be, from the admitted calls of the actor and of all in the window.
abbrev pub verdict : ℤ → ℤ → ℕ → ℕ → Outcome (Unit {0})
verdict actor_limit global_limit own all =
    if leb_ℤ actor_limit (pos own)
    then raise actor_quota_exceeded
    else if leb_ℤ global_limit (pos all)
    then raise global_quota_exceeded
    else ok tt

module _ {D : Type 0} (redis : Redis D) (v : View redis) (l : RedisLimiter) where
  -- A call that reaches the server at its time.
  unfoldable pub served : Call → D → Outcome (Unit {0}) × D
  unfolding allow_redis
  served c d = allow_redis redis l c.time c.uuid c.actor (v.elapse c.time d)

  -- Some calls, with the log of those that are admitted, newest first.
  unfoldable pub run : D → List Call → List Call → D × List Call
  unfolding served
  run d log [] = (d, log)
  run d log (c ∷ calls) =
      let (o, d') = served c d in
      elim o [ ok _ ↦ run d' (c ∷ log) calls | raise e ↦ run d' log calls ]

  module _ (laws : IsDocumented redis v) (long : l.window_ms ≤ l.ttl_sec * 1000) where
    abbrev Tracked : ℕ → D → List Text → List Call → Type 0
    Tracked = Tracks redis v laws l.window_ms l

    -- The script, as its two ends.
    served_as :
        (c : Call) (d : D)
        → let e = pruned redis v laws l.window_ms l c.actor c.time (v.elapse c.time d) in
          served c d ≡ (
            if leb_ℤ l.actor_limit (pos (redis.zcard (actor_key l c.actor) e))
            then (raise actor_quota_exceeded, e)
            else if leb_ℤ l.global_limit (pos (redis.zcard (global_key l) e))
            then (raise global_quota_exceeded, e)
            else (ok tt, stored redis v laws l.window_ms l c.actor c.time (entry c).1 e))
    unfolding served allow_redis script result_of
    served_as c d = ground arith

    module _ (p : ℕ) (c : Call) (d : D) (used : List Text) (log : List Call) (le : p ≤ c.time)
        (t : Tracked p d used log) where
      abbrev w : ℕ
      w = l.window_ms

      abbrev now_d : D
      now_d = v.elapse c.time d

      abbrev before : D
      before = pruned redis v laws w l c.actor c.time now_d

      arrived : Tracked c.time now_d used log
      arrived = elapse-Tracks redis v laws w l p c.time d used log le t

      pub result-served :
          (served c d).0
          ≡ verdict l.actor_limit l.global_limit
              (count (live w c.time) (entries_of c.actor log))
              (count (live w c.time) (entries log))
      result-served = ground (
        arith,
        served_as c d,
        zcard-own redis v laws w l c.time now_d used log c.actor arrived,
        zcard-global redis v laws w l c.time now_d used log c.actor arrived,
      )

      module _ (fresh : elem (entry c).1 used ≡ false) where
        pub before-Tracked : Tracked c.time before ((entry c).1 ∷ used) log
        before-Tracked =
            let t' = pruned-Tracks redis v laws w l c.time now_d used log c.actor arrived in
            Tracks-used redis v laws w l c.time before used log (entry c).1 t'

        pub after-Tracked :
            Tracked c.time
              (stored redis v laws w l c.actor c.time (entry c).1 before)
              ((entry c).1 ∷ used)
              (c ∷ log)
        after-Tracked =
            let clock =
              pruned-clock redis v laws w l c.time now_d used log c.actor arrived
              ∙ laws.elapse_clock c.time d in
            stored-Tracks redis v laws w l long c before used log clock fresh
              (pruned-Tracks redis v laws w l c.time now_d used log c.actor arrived)

        pub state-served :
            ((served c d).0 ≡ ok tt) × Tracked c.time (served c d).1 ((entry c).1 ∷ used) (c ∷ log)
            ⊎ ((e : Error) × ((served c d).0 ≡ raise e)
                × Tracked c.time (served c d).1 ((entry c).1 ∷ used) log)
        state-served =
            let own = redis.zcard (actor_key l c.actor) before in
            let all = redis.zcard (global_key l) before in
            elim (Bool-cases (leb_ℤ l.actor_limit (pos own))) [
              | inl f ↦ inr (
                actor_quota_exceeded,
                ground (arith, served_as c d),
                rw (served_as c d, f) before-Tracked,
              )
              | inr f ↦ elim (Bool-cases (leb_ℤ l.global_limit (pos all))) [
                | inl g ↦ inr (
                  global_quota_exceeded,
                  ground (arith, served_as c d),
                  rw (served_as c d, f, g) before-Tracked,
                )
                | inr g ↦
                    inl (ground (arith, served_as c d), rw (served_as c d, f, g) after-Tracked)
              ]
            ]

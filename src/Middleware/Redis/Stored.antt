-- ===== src/Middleware/Redis/Stored.antt =====
-- What the last four commands of the script leave under each key.
use mcp_sql_server.Middleware.Redis.Tracks.{Call, Tracks, entries, entries_of, entry}
use mcp_sql_server.Middleware.Redis.Script.{
  actor_key-actor_key, actor_key-global_key, global_key-actor_key, stored,
}
use mcp_sql_server.Middleware.Redis.Holds.{Holds, Holds-added, Holds-used}
use mcp_sql_server.Middleware.Redis.Sets.{Entry, IsDocumented, View, is_member}
use mcp_sql_server.Middleware.Redis.{Redis, RedisLimiter, actor_key, global_key}
use mathlib.Core.Path.{subst}
use mcp_sql_server.Common.{
  Bool, Bool-cases, List, Text, ap, arith, count, elem, false, inl, inr, text_eq, text_eq_refl,
  text_eq_sound, ℕ, ◌*◌, ◌+◌, ◌∙◌, ◌∷◌, ◌≡◌, ◌≤◌,
}

module _ {D : Type 0} (redis : Redis D) (v : View redis) (laws : IsDocumented redis v) (w : ℕ)
    (l : RedisLimiter) (a : Text) (now : ℕ) (m : Text) (d : D) where
  abbrev first : D
  first = redis.zadd (actor_key l a) now m d

  abbrev both : D
  both = redis.zadd (global_key l) now m first

  abbrev marked : D
  marked = redis.expire (actor_key l a) l.ttl_sec both

  set-stored : (k : Text) → v.set_of k (stored redis v laws w l a now m d) ≡ v.set_of k both
  set-stored k =
      laws.expire_set (global_key l) k l.ttl_sec marked
      ∙ laws.expire_set (actor_key l a) k l.ttl_sec both

  clock-both : v.clock both ≡ v.clock d
  clock-both = laws.add_clock (global_key l) now m first ∙ laws.add_clock (actor_key l a) now m d

  due_own :
      v.deadline (actor_key l a) (stored redis v laws w l a now m d) ≡ v.clock d + l.ttl_sec * 1000
  due_own =
      laws.expire_frame (global_key l) (actor_key l a) l.ttl_sec marked (global_key-actor_key l a)
      ∙ laws.expires (actor_key l a) l.ttl_sec both
      ∙ ap (λ c. c + l.ttl_sec * 1000) clock-both

  due_global :
      v.deadline (global_key l) (stored redis v laws w l a now m d) ≡ v.clock d + l.ttl_sec * 1000
  due_global =
      laws.expires (global_key l) l.ttl_sec marked
      ∙ ap (λ c. c + l.ttl_sec * 1000)
          (laws.expire_clock (actor_key l a) l.ttl_sec both ∙ clock-both)

  due_other :
      (b : Text)
      → text_eq a b ≡ false
      → v.deadline (actor_key l b) (stored redis v laws w l a now m d)
        ≡ v.deadline (actor_key l b) d
  due_other b n =
      let k = actor_key l b in
      let apart = actor_key-actor_key l a b ∙ n in
      laws.expire_frame (global_key l) k l.ttl_sec marked (global_key-actor_key l b)
      ∙ laws.expire_frame (actor_key l a) k l.ttl_sec both apart
      ∙ (laws.add_frame (global_key l) k now m first (global_key-actor_key l b)).1
      ∙ (laws.add_frame (actor_key l a) k now m d apart).1

  set_other :
      (b : Text)
      → text_eq a b ≡ false
      → v.set_of (actor_key l b) (stored redis v laws w l a now m d) ≡ v.set_of (actor_key l b) d
  set_other b n =
      let k = actor_key l b in
      set-stored k
      ∙ (laws.add_frame (global_key l) k now m first (global_key-actor_key l b)).0
      ∙ (laws.add_frame (actor_key l a) k now m d (actor_key-actor_key l a b ∙ n)).0

  count_own :
      (q : Entry → Bool)
      → count (is_member m) (v.set_of (actor_key l a) d) ≡ 0
      → count q (v.set_of (actor_key l a) (stored redis v laws w l a now m d))
        ≡ count q ((now, m) ∷ v.set_of (actor_key l a) d)
  count_own q fresh =
      let k = actor_key l a in
      ap (count q)
        (set-stored k ∙ (laws.add_frame (global_key l) k now m first (global_key-actor_key l a)).0)
      ∙ laws.added k now m d q fresh

  count_global :
      (q : Entry → Bool)
      → count (is_member m) (v.set_of (global_key l) d) ≡ 0
      → count q (v.set_of (global_key l) (stored redis v laws w l a now m d))
        ≡ count q ((now, m) ∷ v.set_of (global_key l) d)
  unfolding count
  count_global q fresh =
      let k = global_key l in
      let (same, _) = laws.add_frame (actor_key l a) k now m d (actor_key-global_key l a) in
      ap (count q) (set-stored k)
      ∙ laws.added k now m first q (ap (count (is_member m)) same ∙ fresh)
      ∙ ap (λ s. count q ((now, m) ∷ s)) same

-- The call is added to the log.
module _ {D : Type 0} (redis : Redis D) (v : View redis) (laws : IsDocumented redis v) (w : ℕ)
    (l : RedisLimiter) (long : w ≤ l.ttl_sec * 1000) where
  pub stored-Tracks :
      (c : Call) (d : D) (used : List Text) (log : List Call)
      → v.clock d ≡ c.time
      → elem (entry c).1 used ≡ false
      → Tracks redis v laws w l c.time d used log
      → Tracks redis v laws w l c.time
          (stored redis v laws w l c.actor c.time (entry c).1 d)
          ((entry c).1 ∷ used)
          (c ∷ log)
  stored-Tracks c d used log clock fresh t =
      let m = (entry c).1 in
      let now = c.time in
      let a = c.actor in
      let gk = global_key l in
      let after = stored redis v laws w l a now m d in
      record {
        global =
            let h = t.global in
            Holds-added w now (v.set_of gk d) (v.deadline gk d) used (entries log) h m
              (v.set_of gk after) (v.deadline gk after)
              (λ q. count_global redis v laws w l a now m d q (h.known m fresh))
              (omega (arith, due_global redis v laws w l a now m d, clock, long));
        own = λ b. elim (Bool-cases (text_eq a b)) [
          | inl e ↦
              let h = t.own a in
              let k = actor_key l a in
              let here =
                Holds-added w now (v.set_of k d) (v.deadline k d) used (entries_of a log) h m
                  (v.set_of k after) (v.deadline k after)
                  (λ q. count_own redis v laws w l a now m d q (h.known m fresh))
                  (omega (arith, due_own redis v laws w l a now m d, clock, long)) in
              let whole : Holds w now (v.set_of k after) (v.deadline k after) (m ∷ used)
                  (entries_of a (c ∷ log)) =
                rw (text_eq_refl a) here in
              subst
                (λ x.
                  Holds w now (v.set_of (actor_key l x) after) (v.deadline (actor_key l x) after)
                    (m ∷ used) (entries_of x (c ∷ log)))
                (text_eq_sound a b e) whole
          | inr n ↦
              let k = actor_key l b in
              let kept =
                Holds-used w now (v.set_of k d) (v.deadline k d) used (entries_of b log) (t.own b)
                  m in
              rw
                (
                  n,
                  set_other redis v laws w l a now m d b n,
                  due_other redis v laws w l a now m d b n,
                )
                kept
        ];
      }

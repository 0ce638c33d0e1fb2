-- ===== src/Middleware/Redis/Script.antt =====
-- The commands of the script on the keys of the limiter.
use mcp_sql_server.Middleware.Redis.Holds.{
  Holds, Holds-deleted, Holds-emptied, Holds-later, Holds-pruned, length-unexpired, live,
}
use mcp_sql_server.Middleware.Redis.Sets.{Entry, IsDocumented, View}
use mcp_sql_server.Middleware.Redis.{Redis, RedisLimiter, actor_key, global_key}
use mcp_sql_server.Common.{
  Bool-cases, List, Text, [], ap, arith, codes, count, false, inl, inr, length, refl, sub_ℕ,
  text_eq, text_eq_sound, ℕ, ◌++◌, ◌∙◌, ◌∷◌, ◌≡◌, ◌≤◌,
}

text_eq-append : (s x y : Text) → text_eq (s ++ x) (s ++ y) ≡ text_eq x y
unfolding text_eq
text_eq-append [] x y = refl
text_eq-append (c ∷ s) x y = ground (arith, text_eq-append s x y)

pub actor_key-actor_key :
    (l : RedisLimiter) (a b : Text) → text_eq (actor_key l a) (actor_key l b) ≡ text_eq a b
actor_key-actor_key l a b =
    text_eq-append l.namespace (codes ":actor:" ++ a) (codes ":actor:" ++ b)
    ∙ text_eq-append (codes ":actor:") a b

pub actor_key-global_key :
    (l : RedisLimiter) (a : Text) → text_eq (actor_key l a) (global_key l) ≡ false
actor_key-global_key l a =
    text_eq-append l.namespace (codes ":actor:" ++ a) (codes ":global") ∙ (unfold text_eq in refl)

pub global_key-actor_key :
    (l : RedisLimiter) (a : Text) → text_eq (global_key l) (actor_key l a) ≡ false
global_key-actor_key l a =
    text_eq-append l.namespace (codes ":global") (codes ":actor:" ++ a) ∙ (unfold text_eq in refl)

module _ {D : Type 0} (redis : Redis D) (v : View redis) (laws : IsDocumented redis v) (w : ℕ) where
  abbrev pub AtKey : ℕ → D → Text → List Text → List Entry → Type 0
  AtKey p d k used log = Holds w p (v.set_of k d) (v.deadline k d) used log

  pub elapse-AtKey :
      (p now : ℕ) (d : D) (k : Text) (used : List Text) (log : List Entry)
      → p ≤ now
      → AtKey p d k used log
      → AtKey now (v.elapse now d) k used log
  elapse-AtKey p now d k used log le h = elim (laws.elapsed k now d) [
    | inl (same, same_due) ↦
        rw (same, same_due) (Holds-later w p (v.set_of k d) (v.deadline k d) used log h now le)
    | inr (gone, over) ↦ rw gone (
        Holds-deleted w p (v.set_of k d) (v.deadline k d) used log h now
          (v.deadline k (v.elapse now d)) le over)
  ]

  abbrev pub remove : ℕ → Text → D → D
  remove now j d = redis.zremrangebyscore j 0 (sub_ℕ now w) d

  remove-AtKey_same :
      (now : ℕ) (d : D) (k : Text) (used : List Text) (log : List Entry)
      → AtKey now d k used log
      → AtKey now (remove now k d) k used log
  remove-AtKey_same now d k used log h =
      let set = v.set_of k d in
      let removed = laws.removed k 0 (sub_ℕ now w) d in
      let pruned = Holds-pruned w now set (v.deadline k d) used log h in
      let here : Holds w now (v.set_of k (remove now k d)) (v.deadline k d) used log =
        rw removed pruned in
      Holds-emptied w now (v.set_of k (remove now k d)) (v.deadline k d)
        (v.deadline k (remove now k d)) used log here (laws.removed_deadline k 0 (sub_ℕ now w) d)

  pub remove-AtKey :
      (now : ℕ) (d : D) (j k : Text) (used : List Text) (log : List Entry)
      → AtKey now d k used log
      → AtKey now (remove now j d) k used log
  remove-AtKey now d j k used log h = elim (Bool-cases (text_eq j k)) [
    | inl e ↦ rw (text_eq_sound j k e) (remove-AtKey_same now d k used log h)
    | inr n ↦
        let (same, same_due) = laws.remove_frame j k 0 (sub_ℕ now w) d n in rw (same, same_due) h
  ]

  -- After the range is removed, the cardinality is the number of live entries of the log.
  pub zcard-remove :
      (now : ℕ) (d : D) (k : Text) (used : List Text) (log : List Entry)
      → AtKey now d k used log
      → redis.zcard k (remove now k d) ≡ count (live w now) log
  zcard-remove now d k used log h =
      laws.cardinality k (remove now k d)
      ∙ ap length (laws.removed k 0 (sub_ℕ now w) d)
      ∙ length-unexpired w now (v.set_of k d)
      ∙ h.agrees now (omega arith)

  module _ (l : RedisLimiter) (a : Text) where
    abbrev pub pruned : ℕ → D → D
    pruned now d = remove now (global_key l) (remove now (actor_key l a) d)

    abbrev pub stored : ℕ → Text → D → D
    stored now m d = redis.expire (global_key l) l.ttl_sec (
        redis.expire (actor_key l a) l.ttl_sec
          (redis.zadd (global_key l) now m (redis.zadd (actor_key l a) now m d)))

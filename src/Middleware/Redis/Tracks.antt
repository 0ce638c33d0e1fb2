-- ===== src/Middleware/Redis/Tracks.antt =====
-- The state of the server against the log of all admitted calls.
use mcp_sql_server.Middleware.Redis.Script.{
  AtKey, elapse-AtKey, global_key-actor_key, pruned, remove, remove-AtKey, zcard-remove,
}
use mcp_sql_server.Middleware.Redis.Holds.{Holds, Holds-used, live}
use mcp_sql_server.Middleware.Redis.Sets.{Entry, IsDocumented, View}
use mcp_sql_server.Middleware.Redis.{Redis, RedisLimiter, actor_key, global_key, member_of}
use mcp_sql_server.Common.{
  List, Text, [], ap, count, if◌then◌else◌, length, sub_ℕ, sym, text_eq, ℕ, ◌∙◌, ◌∷◌, ◌≡◌, ◌≤◌,
}

-- A call: its time, its fresh identifier and its actor.
pub record Call : Type 0 where
  pub time : ℕ
  pub uuid : Text
  pub actor : Text

abbrev pub entry : Call → Entry
entry c = (c.time, member_of c.time c.uuid)

-- The admitted calls of everybody, and of one actor, newest first.
abbrev pub entries : List Call → List Entry
entries [] = []
entries (c ∷ log) = entry c ∷ entries log

abbrev pub entries_of : Text → List Call → List Entry
entries_of a [] = []
entries_of a (c ∷ log) =
    let rest = entries_of a log in if text_eq c.actor a then entry c ∷ rest else rest

module _ {D : Type 0} (redis : Redis D) (v : View redis) (laws : IsDocumented redis v) (w : ℕ)
    (l : RedisLimiter) where
  pub record Tracks (p : ℕ) (d : D) (used : List Text) (log : List Call) : Type 0 where
    pub global :
        Holds w p (v.set_of (global_key l) d) (v.deadline (global_key l) d) used (entries log)
    pub own :
        (a : Text)
        → Holds w p
            (v.set_of (actor_key l a) d)
            (v.deadline (actor_key l a) d)
            used
            (entries_of a log)

  pub elapse-Tracks :
      (p now : ℕ) (d : D) (used : List Text) (log : List Call)
      → p ≤ now
      → Tracks p d used log
      → Tracks now (v.elapse now d) used log
  elapse-Tracks p now d used log le t = record {
    global = elapse-AtKey redis v laws w p now d (global_key l) used (entries log) le t.global;
    own = λ a.
        elapse-AtKey redis v laws w p now d (actor_key l a) used (entries_of a log) le (t.own a);
  }

  pub Tracks-used :
      (p : ℕ) (d : D) (used : List Text) (log : List Call) (m : Text)
      → Tracks p d used log
      → Tracks p d (m ∷ used) log
  Tracks-used p d used log m t = record {
    global =
        Holds-used w p (v.set_of (global_key l) d) (v.deadline (global_key l) d) used (entries log)
          t.global m;
    own = λ a.
        Holds-used w p (v.set_of (actor_key l a) d) (v.deadline (actor_key l a) d) used
          (entries_of a log) (t.own a) m;
  }

  module _ (now : ℕ) (d : D) (used : List Text) (log : List Call) (a : Text)
      (t : Tracks now d used log) where
    abbrev half : D
    half = remove redis v laws w now (actor_key l a) d

    half-global : AtKey redis v laws w now half (global_key l) used (entries log)
    half-global =
        remove-AtKey redis v laws w now d (actor_key l a) (global_key l) used (entries log) t.global

    pub pruned-Tracks : Tracks now (pruned redis v laws w l a now d) used log
    pruned-Tracks = record {
      global =
          remove-AtKey redis v laws w now half (global_key l) (global_key l) used (entries log)
            half-global;
      own = λ b.
          let ek = entries_of b log in
          remove-AtKey redis v laws w now half (global_key l) (actor_key l b) used ek
            (remove-AtKey redis v laws w now d (actor_key l a) (actor_key l b) used ek (t.own b));
    }

    pub zcard-global :
        redis.zcard (global_key l) (pruned redis v laws w l a now d)
        ≡ count (live w now) (entries log)
    zcard-global =
        zcard-remove redis v laws w now half (global_key l) used (entries log) half-global

    pub zcard-own :
        redis.zcard (actor_key l a) (pruned redis v laws w l a now d)
        ≡ count (live w now) (entries_of a log)
    zcard-own =
        let k = actor_key l a in
        let (same, _) =
          laws.remove_frame (global_key l) k 0 (sub_ℕ now w) half (global_key-actor_key l a) in
        laws.cardinality k (pruned redis v laws w l a now d)
        ∙ ap length same
        ∙ sym (laws.cardinality k half)
        ∙ zcard-remove redis v laws w now d k used (entries_of a log) (t.own a)

    pub pruned-clock : v.clock (pruned redis v laws w l a now d) ≡ v.clock d
    pruned-clock =
        laws.remove_clock (global_key l) 0 (sub_ℕ now w) half
        ∙ laws.remove_clock (actor_key l a) 0 (sub_ℕ now w) d

-- ===== src/Tests/RedisLimits.antt =====
-- The limiter on a server that keeps its sets in a function of the key.
use Prim.Native.String.{String}
use mcp_sql_server.Middleware.Redis.Quotas.{inside, redis_allow_exact, redis_quotas_hold}
use mcp_sql_server.Middleware.Redis.Served.{IsFresh, run, served, verdict}
use mcp_sql_server.Middleware.Redis.Tracks.{Call, entries, entries_of}
use mcp_sql_server.Middleware.Redis.Holds.{live}
use mcp_sql_server.Middleware.Redis.Sets.{Entry, IsDocumented, View, in_range, is_member}
use mcp_sql_server.Middleware.Redis.{
  Redis, RedisLimiter, allow_redis, init_redis, member_of, result_of, script,
}
use mcp_sql_server.Common.{
  Bool, Bool-cases, List, Text, [], arith, codes, count, elem, if◌then◌else◌, inl, inr, keep, leb,
  length, not, pos, refl, text_eq, text_eq_refl, ℕ, ◌*◌, ◌+ℤ◌, ◌+◌, ◌∷◌, ◌≡◌, ◌≤◌,
}

record Server : Type 0 where
  clock : ℕ
  sets : Text → List Entry
  due : Text → ℕ

abbrev at_key {ℓ} : {A : Type ℓ} → Text → A → (Text → A) → Text → A
at_key k a f j = if text_eq k j then a else f j

abbrev server : Redis Server
server = record {
  zremrangebyscore = λ k low high d. record d {
    sets = at_key k (keep (λ e. not (in_range low high e)) (d.sets k)) d.sets;
  };
  zcard = λ k d. length (d.sets k);
  zadd = λ k score m d. record d {
    sets = at_key k ((score, m) ∷ keep (λ e. not (is_member m e)) (d.sets k)) d.sets;
  };
  expire = λ k ttl d. record d { due = at_key k (d.clock + ttl * 1000) d.due };
}

abbrev view : View server
view = record {
  clock = λ d. d.clock;
  set_of = λ k d. d.sets k;
  deadline = λ k d. d.due k;
  elapse =
      λ now d. record d { clock = now; sets = λ k. if leb (d.due k) now then [] else d.sets k };
}

count-keep_other :
    (q : Entry → Bool) (m : Text) (xs : List Entry)
    → count (is_member m) xs ≡ 0
    → count q (keep (λ e. not (is_member m e)) xs) ≡ count q xs
unfolding count keep
count-keep_other q m [] h = refl
count-keep_other q m (x ∷ xs) h = ground (arith, count-keep_other q m xs)

server-IsDocumented : IsDocumented server view
server-IsDocumented = record {
  cardinality = λ k d. refl;
  removed = λ k low high d. rw (text_eq_refl k) refl;
  removed_deadline = λ k low high d. inl refl;
  added = λ k score m d p fresh.
      rw (text_eq_refl k) (unfold count in ground (arith, count-keep_other p m (d.sets k) fresh));
  expires = λ k ttl d. rw (text_eq_refl k) refl;
  expire_set = λ k j ttl d. refl;
  elapsed = λ k now d. elim (Bool-cases (leb (d.due k) now)) [
    | inl over ↦ inr (rw over refl, ground arith)
    | inr still ↦ inl (rw still refl, refl)
  ];
  elapse_clock = λ now d. refl;
  remove_clock = λ k low high d. refl;
  add_clock = λ k score m d. refl;
  expire_clock = λ k ttl d. refl;
  remove_frame = λ k j low high d n. (rw n refl, refl);
  add_frame = λ k j score m d n. (rw n refl, refl);
  expire_frame = λ k j ttl d n. rw n refl;
}

abbrev new_server : Server
new_server = record { clock = 0; sets = λ k. []; due = λ k. 0 }

abbrev call : ℕ → String → String → Call
call t u a = record { time = t; uuid = codes u; actor = codes a }

-- At most one call of an actor, and two of all.
abbrev history : List Call
history = call 100000 "x" "ann" ∷ call 100500 "y" "ann" ∷ call 159000 "z" "bob" ∷ []

abbrev ns : Text
ns = codes "mcp:ratelimit"

abbrev quota : RedisLimiter
quota = init_redis (pos 1) (pos 0) (pos 2) (pos 0) ns

history-IsFresh : IsFresh [] history
unfolding elem text_eq member_of
history-IsFresh = (refl, (refl, (refl, tt)))

redis_quotas_hold_example :
    let log = (run server view quota new_server [] history).1 in
    (count (inside 99000 60000) (entries log) ≤ 2)
    × (count (inside 99000 60000) (entries_of (codes "ann") log) ≤ 1)
unfolding ◌+ℤ◌
redis_quotas_hold_example =
    redis_quotas_hold server view server-IsDocumented (pos 1) (pos 0) (pos 2) (pos 0) ns new_server
      history 99000 (codes "ann") (λ k. refl) (omega arith, (omega arith, (omega arith, tt)))
      history-IsFresh

redis_allow_exact_example :
    let (d, log) = run server view quota new_server [] history in
    (served server view quota (call 159999 "v" "ann") d).0
    ≡ verdict
        (pos 1)
        (pos 2)
        (count (live 60000 159999) (entries_of (codes "ann") log))
        (count (live 60000 159999) (entries log))
unfolding count ◌+ℤ◌
redis_allow_exact_example =
    redis_allow_exact server view server-IsDocumented (pos 1) (pos 0) (pos 2) (pos 0) ns new_server
      history (call 159999 "v" "ann") (λ k. refl) (omega arith, (omega arith, (omega arith, tt)))
      history-IsFresh (omega arith)

-- The second call of `ann` is refused.
admitted_twice : length (run server view quota new_server [] history).1 ≡ 2
unfolding run served allow_redis script result_of init_redis keep text_eq ◌+ℤ◌
admitted_twice = refl

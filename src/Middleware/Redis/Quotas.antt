-- ===== src/Middleware/Redis/Quotas.antt =====
-- The quotas of the limiter on a Redis server.
use mathlib.Core.Path.{subst}
use mcp_sql_server.Middleware.Redis.Served.{
  IsFresh, Ticks, result-served, run, served, state-served, verdict,
}
use mcp_sql_server.Middleware.Redis.Tracks.{Call, Tracks, entries, entries_of, entry}
use mcp_sql_server.Middleware.Redis.Holds.{Holds, live}
use mcp_sql_server.Middleware.Redis.Sets.{Entry, IsDocumented, View}
use mcp_sql_server.Middleware.Redis.{Redis, RedisLimiter, actor_key, global_key, init_redis}
use mcp_sql_server.Common.{
  Bool, Bool-cases, List, Text, [], arith, count, false, inl, inr, leb, leb_ℤ, ltb, ok, pos,
  pos_part, refl, sym, text_eq, text_eq_refl, text_eq_sound, true, ℕ, ℤ, ◌&&◌, ◌*◌, ◌+ℤ◌, ◌+◌, ◌<◌,
  ◌∙◌, ◌∷◌, ◌≡◌, ◌≤◌,
}

-- Of the entries, newest first, each had at most `limit` live ones when it was added, itself
-- included.
abbrev Spaced : ℕ → ℕ → List Entry → Type 0
Spaced w limit [] = Unit {0}
Spaced w limit (e ∷ log) = (count (live w e.0) (e ∷ log) ≤ limit) × Spaced w limit log

-- From `start` on, for less than `w`.
abbrev pub inside : ℕ → ℕ → Entry → Bool
inside start w (score, _) = leb start score && ltb score (start + w)

inside-live :
    (w start : ℕ) (e : Entry) (log : List Entry)
    → inside start w e ≡ true
    → count (inside start w) log ≤ count (live w e.0) log
unfolding count
inside-live w start e [] h = omega arith
inside-live w start e (x ∷ log) h = ground (arith, inside-live w start e log h)

Spaced-inside :
    (w limit start : ℕ) (log : List Entry) → Spaced w limit log → count (inside start w) log ≤ limit
unfolding count
Spaced-inside w limit start [] s = omega arith
Spaced-inside w limit start (e ∷ log) s =
    ground (arith, Spaced-inside w limit start log s.1, inside-live w start e log)

Spaced-cons :
    (w now : ℕ) (m : Text) (limit : ℤ) (log : List Entry)
    → 0 < w
    → Spaced w (pos_part limit) log
    → leb_ℤ limit (pos (count (live w now) log)) ≡ false
    → Spaced w (pos_part limit) ((now, m) ∷ log)
unfolding count
Spaced-cons w now m limit log wide s room = ground arith

record IsSpaced (l : RedisLimiter) (log : List Call) : Type 0 where
  pub all : Spaced l.window_ms (pos_part l.global_limit) (entries log)
  pub own : (a : Text) → Spaced l.window_ms (pos_part l.actor_limit) (entries_of a log)

admitted-IsSpaced :
    (l : RedisLimiter) (c : Call) (log : List Call)
    → 0 < l.window_ms
    → verdict l.actor_limit l.global_limit
        (count (live l.window_ms c.time) (entries_of c.actor log))
        (count (live l.window_ms c.time) (entries log))
      ≡ ok tt
    → IsSpaced l log
    → IsSpaced l (c ∷ log)
admitted-IsSpaced l c log wide h s =
    let w = l.window_ms in
    let m = (entry c).1 in
    record {
      all = Spaced-cons w c.time m l.global_limit (entries log) wide s.all (ground arith);
      own = λ b. elim (Bool-cases (text_eq c.actor b)) [
        | inl e ↦
            let more =
              Spaced-cons w c.time m l.actor_limit (entries_of c.actor log) wide (s.own c.actor)
                (ground arith) in
            let here : Spaced w (pos_part l.actor_limit) (entries_of c.actor (c ∷ log)) =
              rw (text_eq_refl c.actor) more in
            subst (λ a. Spaced w (pos_part l.actor_limit) (entries_of a (c ∷ log)))
              (text_eq_sound c.actor b e) here
        | inr n ↦ rw n (s.own b)
      ];
    }

-- The time of the last call, `p` if there is none.
abbrev pub last_time : ℕ → List Call → ℕ
last_time p [] = p
last_time p (c ∷ calls) = last_time c.time calls

module _ {D : Type 0} (redis : Redis D) (v : View redis) (laws : IsDocumented redis v) where
  -- The state and the log after some calls.
  record Follows (l : RedisLimiter) (p : ℕ) (end : D × List Call) : Type 0 where
    pub spaced : IsSpaced l end.1
    pub used : List Text
    pub tracks : Tracks redis v laws l.window_ms l p end.0 used end.1

  run-Follows :
      (l : RedisLimiter) (p : ℕ) (d : D) (used : List Text) (log calls : List Call)
      → l.window_ms ≤ l.ttl_sec * 1000
      → 0 < l.window_ms
      → Ticks p calls
      → IsFresh used calls
      → Tracks redis v laws l.window_ms l p d used log
      → IsSpaced l log
      → Follows l (last_time p calls) (run redis v l d log calls)
  unfolding run
  run-Follows l p d used log [] long wide h f t s = record { spaced = s; used = used; tracks = t }
  run-Follows l p d used log (c ∷ calls) long wide h f t s =
      let result = result-served redis v l laws long p c d used log h.0 t in
      let later = (entry c).1 ∷ used in
      let d' = (served redis v l c d).1 in
      elim (state-served redis v l laws long p c d used log h.0 t f.0) [
        | inl (returns, t') ↦
            let s' = admitted-IsSpaced l c log wide (sym result ∙ returns) s in
            rw (returns, run)
              (run-Follows l c.time d' later (c ∷ log) calls long wide h.1 f.1 t' s')
        | inr (e, raises, t') ↦
            rw (raises, run) (run-Follows l c.time d' later log calls long wide h.1 f.1 t' s)
      ]

  -- The server has nothing under any key.
  abbrev pub IsEmptyServer : D → Type 0
  IsEmptyServer d = (k : Text) → v.set_of k d ≡ []

  module _ (ar ab gr gb : ℤ) (namespace : Text) where
    init-Follows :
        (d : D) (calls : List Call)
        → IsEmptyServer d
        → Ticks 0 calls
        → IsFresh [] calls
        → Follows
            (init_redis ar ab gr gb namespace)
            (last_time 0 calls)
            (run redis v (init_redis ar ab gr gb namespace) d [] calls)
    unfolding init_redis count
    init-Follows d calls none_yet h f =
        let empty-Holds : (k : Text) → Holds 60000 0 (v.set_of k d) (v.deadline k d) [] [] = λ k.
          record {
            agrees = λ n later. rw (none_yet k) refl;
            kept_long = rw (none_yet k) refl;
            past = rw (none_yet k) refl;
            known = λ m fresh. rw (none_yet k) refl;
          } in
        run-Follows (init_redis ar ab gr gb namespace) 0 d [] [] calls (omega arith) (omega arith) h
          f
          (record {
            global = empty-Holds (global_key (init_redis ar ab gr gb namespace));
            own = λ a. empty-Holds (actor_key (init_redis ar ab gr gb namespace) a);
          })
          (record { all = tt; own = λ a. tt })

    -- With a server that does what its commands are documented to do, and that starts with nothing
    -- stored: whatever calls come, while the clock does not go back and no identifier is used
    -- twice, any 60 seconds, their end not included, hold at most `rpm + burst` admitted calls of
    -- all actors, and at most `rpm + burst` of each one (none where that sum is negative). That
    -- the server deletes a key after its 120 seconds forgets none of them.
    pub redis_quotas_hold :
        (d : D) (calls : List Call) (start : ℕ) (actor : Text)
        → IsEmptyServer d
        → Ticks 0 calls
        → IsFresh [] calls
        → let log = (run redis v (init_redis ar ab gr gb namespace) d [] calls).1 in
          (count (inside start 60000) (entries log) ≤ pos_part (gr +ℤ gb))
          × (count (inside start 60000) (entries_of actor log) ≤ pos_part (ar +ℤ ab))
    unfolding init_redis
    redis_quotas_hold d calls start actor none_yet h f =
        let log = (run redis v (init_redis ar ab gr gb namespace) d [] calls).1 in
        let s = (init-Follows d calls none_yet h f).spaced in
        (
          Spaced-inside 60000 (pos_part (gr +ℤ gb)) start (entries log) s.all,
          Spaced-inside 60000 (pos_part (ar +ℤ ab)) start (entries_of actor log) (s.own actor),
        )

    -- Under the same conditions the limiter decides as the log says: a call is refused exactly when
    -- the actor, or else all actors together, had `rpm + burst` calls admitted less than 60 seconds
    -- before it; in particular, the script never gives an unknown result.
    pub redis_allow_exact :
        (d : D) (calls : List Call) (c : Call)
        → IsEmptyServer d
        → Ticks 0 calls
        → IsFresh [] calls
        → last_time 0 calls ≤ c.time
        → let (d', log) = run redis v (init_redis ar ab gr gb namespace) d [] calls in
          (served redis v (init_redis ar ab gr gb namespace) c d').0
          ≡ verdict
              (ar +ℤ ab)
              (gr +ℤ gb)
              (count (live 60000 c.time) (entries_of c.actor log))
              (count (live 60000 c.time) (entries log))
    unfolding init_redis
    redis_allow_exact d calls c none_yet h f later =
        let (d', log) = run redis v (init_redis ar ab gr gb namespace) d [] calls in
        let end = init-Follows d calls none_yet h f in
        result-served redis v (init_redis ar ab gr gb namespace) laws (omega arith)
          (last_time 0 calls) c d' end.used log later end.tracks

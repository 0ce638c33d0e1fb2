-- ===== src/Middleware/RateLimit/Admission.antt =====
-- Histories of calls to the limiter, and the quotas that they respect.
use mcp_sql_server.Common.{
  Bool, List, Text, [], arith, count, false, if◌then◌else◌, insert, leb_ℤ, length, lookup-insert,
  not, ok, pos, pos_part, raise, text_eq, text_eq_iff, ℕ, ℤ, ◌&&◌, ◌++◌, ◌∷◌, ◌≡◌, ◌≤◌,
}
use mcp_sql_server.Middleware.RateLimit.Window.{
  Ascends, Ascends-mono, Spaced, append-Ascends, count-append, count-prune, length-prune,
  prune-Ascends, recent,
}
use mcp_sql_server.Middleware.RateLimit.{
  Limiter, actor_limit, actor_quota_exceeded, allow, bucket_of, global_limit, global_quota_exceeded,
  prune,
}

-- A call: its time and its actor.
abbrev pub Call : Type 0
Call = ℕ × Text

-- The times of the admitted calls, newest first: of all actors, and of one.
abbrev pub times : List Call → List ℕ
times [] = []
times ((t, _) ∷ log) = t ∷ times log

abbrev pub times_of : Text → List Call → List ℕ
times_of a [] = []
times_of a ((t, b) ∷ log) = let rest = times_of a log in if text_eq b a then t ∷ rest else rest

-- The limiter after some calls, and the calls that it admitted, newest first.
unfoldable pub run : Limiter → List Call → List Call → Limiter × List Call
run l log [] = (l, log)
run l log ((now, actor) ∷ calls) =
    let (result, l') = allow l now actor in
    elim result [ ok _ ↦ run l' ((now, actor) ∷ log) calls | raise e ↦ run l' log calls ]

-- The clock does not go back.
abbrev pub Ticks : ℕ → List Call → Type 0
Ticks p [] = Unit {0}
Ticks p ((now, _) ∷ calls) = (p ≤ now) × Ticks now calls

-- The deques hold what the log has in the last 60 seconds, at `p` or later, in order; and the log
-- respects the quotas.
pub record Tracks (p : ℕ) (l : Limiter) (log : List Call) : Type 0 where
  pub global : (n : ℕ) → p ≤ n → count (recent n) l.global_events ≡ count (recent n) (times log)
  pub actor :
      (a : Text) (n : ℕ)
      → p ≤ n
      → count (recent n) (bucket_of l a) ≡ count (recent n) (times_of a log)
  pub global_order : Ascends p l.global_events
  pub actor_order : (a : Text) → Ascends p (bucket_of l a)
  pub global_spaced : Spaced (pos_part (global_limit l)) (times log)
  pub actor_spaced : (a : Text) → Spaced (pos_part (actor_limit l)) (times_of a log)

unfoldable pub actor_full : Limiter → ℕ → Text → Bool
actor_full l now a = leb_ℤ (actor_limit l) (pos (length (prune now (bucket_of l a))))

unfoldable pub global_full : Limiter → ℕ → Bool
global_full l now = leb_ℤ (global_limit l) (pos (length (prune now l.global_events)))

unfoldable pub admits : Limiter → ℕ → Text → Bool
unfolding actor_full global_full
admits l now a = not (actor_full l now a) && not (global_full l now)

pub result-allow :
    (l : Limiter) (now : ℕ) (a : Text)
    → (allow l now a).0 ≡ (
        if actor_full l now a
        then raise actor_quota_exceeded
        else if global_full l now
        then raise global_quota_exceeded
        else ok tt)
unfolding allow actor_full global_full
result-allow l now a = ground arith

global-allow :
    (l : Limiter) (now : ℕ) (a : Text)
    → let left = prune now l.global_events in
      (allow l now a).1.global_events ≡ (if admits l now a then left ++ now ∷ [] else left)
unfolding allow admits
global-allow l now a = ground arith

bucket-allow :
    (l : Limiter) (now : ℕ) (a b : Text)
    → let left = prune now (bucket_of l a) in
      bucket_of (allow l now a).1 b
      ≡ (if text_eq a b then (if admits l now a then left ++ now ∷ [] else left) else bucket_of l b)
unfolding allow admits
bucket-allow l now a b =
    let left = prune now (bucket_of l a) in
    ground (
      arith,
      text_eq_iff a b,
      lookup-insert a b left l.actor_events,
      lookup-insert a b (left ++ now ∷ []) (insert a left l.actor_events),
    )

pub limits-allow :
    (l : Limiter) (now : ℕ) (a : Text)
    → (global_limit (allow l now a).1 ≡ global_limit l)
      × (actor_limit (allow l now a).1 ≡ actor_limit l)
unfolding allow
limits-allow l now a = ground arith

abbrev pub log_after : Limiter → ℕ → Text → List Call → List Call
log_after l now a log = if admits l now a then (now, a) ∷ log else log

Spaced-after :
    (limit : ℤ) (now : ℕ) (ts bucket : List ℕ)
    → Spaced (pos_part limit) ts
    → length bucket ≡ count (recent now) ts
    → leb_ℤ limit (pos (length bucket)) ≡ false
    → Spaced (pos_part limit) (now ∷ ts)
unfolding count
Spaced-after limit now ts bucket s e room = ground arith

module _ (p now : ℕ) (a : Text) (l : Limiter) (log : List Call) (le : p ≤ now)
    (t : Tracks p l log) where
  global-after :
      (n : ℕ)
      → now ≤ n
      → count (recent n) (allow l now a).1.global_events
        ≡ count (recent n) (times (log_after l now a log))
  unfolding count
  global-after n h = ground (
    arith,
    global-allow l now a,
    count-append (recent n) (prune now l.global_events) now,
    count-prune now n l.global_events,
    t.global n,
  )

  actor-after :
      (b : Text) (n : ℕ)
      → now ≤ n
      → count (recent n) (bucket_of (allow l now a).1 b)
        ≡ count (recent n) (times_of b (log_after l now a log))
  unfolding count
  actor-after b n h = ground (
    arith,
    bucket-allow l now a b,
    text_eq_iff a b,
    count-append (recent n) (prune now (bucket_of l a)) now,
    count-prune now n (bucket_of l a),
    t.actor a n,
    t.actor b n,
  )

  global_order-after : Ascends now (allow l now a).1.global_events
  global_order-after =
      let kept = prune-Ascends p now now l.global_events le t.global_order in
      ground
        (arith, global-allow l now a, kept, append-Ascends now (prune now l.global_events) kept)

  actor_order-after : (b : Text) → Ascends now (bucket_of (allow l now a).1 b)
  actor_order-after b =
      let kept = prune-Ascends p now now (bucket_of l a) le (t.actor_order a) in
      ground (
        arith,
        bucket-allow l now a b,
        kept,
        Ascends-mono p now (bucket_of l b) le (t.actor_order b),
        append-Ascends now (prune now (bucket_of l a)) kept,
      )

  pub length-global : length (prune now l.global_events) ≡ count (recent now) (times log)
  length-global = omega (arith, length-prune p now l.global_events t.global_order, t.global now le)

  pub length-actor : length (prune now (bucket_of l a)) ≡ count (recent now) (times_of a log)
  length-actor =
      omega (arith, length-prune p now (bucket_of l a) (t.actor_order a), t.actor a now le)

  global-Spaced-after : Spaced (pos_part (global_limit l)) (times (log_after l now a log))
  unfolding admits
  global-Spaced-after = ground (
    arith,
    t.global_spaced,
    Spaced-after (global_limit l) now (times log) (prune now l.global_events) t.global_spaced
        length-global,
  )

  actor-Spaced-after :
      (b : Text) → Spaced (pos_part (actor_limit l)) (times_of b (log_after l now a log))
  unfolding admits
  actor-Spaced-after b = ground (
    arith,
    t.actor_spaced b,
    text_eq_iff a b,
    Spaced-after (actor_limit l) now (times_of a log) (prune now (bucket_of l a)) (t.actor_spaced a)
        length-actor,
  )

  pub allow-Tracks : Tracks now (allow l now a).1 (log_after l now a log)
  allow-Tracks = record {
    global = global-after;
    actor = actor-after;
    global_order = global_order-after;
    actor_order = actor_order-after;
    global_spaced = rw (limits-allow l now a).0 global-Spaced-after;
    actor_spaced = λ b. rw (limits-allow l now a).1 (actor-Spaced-after b);
  }

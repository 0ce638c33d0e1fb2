-- ===== src/Middleware/RateLimit/Quotas.antt =====
-- The limiter against a log of all admitted calls.
use mcp_sql_server.Common.{
  Bool-cases, Error, List, Text, [], arith, count, false, if◌then◌else◌, inl, inr, leb_ℤ, lookup,
  ok, pos, pos_part, raise, refl, true, ℕ, ℤ, ◌+ℤ◌, ◌+◌, ◌∙◌, ◌∷◌, ◌≡◌, ◌≤◌, ◌⊎◌,
}
use mcp_sql_server.Middleware.RateLimit.Admission.{
  Call, Ticks, Tracks, actor_full, admits, allow-Tracks, global_full, length-actor, length-global,
  limits-allow, result-allow, run, times, times_of,
}
use mcp_sql_server.Middleware.RateLimit.Window.{Spaced-window, recent, within}
use mcp_sql_server.Middleware.RateLimit.{
  Limiter, actor_limit, actor_quota_exceeded, allow, global_limit, global_quota_exceeded, init,
  window,
}

-- The time of the last call, `p` if there is none.
abbrev pub last_tick : ℕ → List Call → ℕ
last_tick p [] = p
last_tick p ((now, _) ∷ calls) = last_tick now calls

record Follows (l : Limiter) (p : ℕ) (end : Limiter × List Call) : Type 0 where
  pub tracks : Tracks p end.0 end.1
  pub same_global : global_limit end.0 ≡ global_limit l
  pub same_actor : actor_limit end.0 ≡ actor_limit l

admits_result :
    (l : Limiter) (now : ℕ) (a : Text)
    → ((allow l now a).0 ≡ ok tt) × (admits l now a ≡ true)
      ⊎ ((e : Error) × ((allow l now a).0 ≡ raise e) × (admits l now a ≡ false))
unfolding admits
admits_result l now a = elim (Bool-cases (actor_full l now a)) [
  | inl f ↦ inr (actor_quota_exceeded, ground (arith, result-allow l now a), ground arith)
  | inr f ↦ elim (Bool-cases (global_full l now)) [
    | inl g ↦ inr (global_quota_exceeded, ground (arith, result-allow l now a), ground arith)
    | inr g ↦ inl (ground (arith, result-allow l now a), ground arith)
  ]
]

run-Follows :
    (p : ℕ) (l : Limiter) (log calls : List Call)
    → Ticks p calls
    → Tracks p l log
    → Follows l (last_tick p calls) (run l log calls)
unfolding run
run-Follows p l log [] h t = record { tracks = t; same_global = refl; same_actor = refl }
run-Follows p l log ((now, a) ∷ calls) h t =
    let after = allow-Tracks p now a l log h.0 t in
    let (same_global, same_actor) = limits-allow l now a in
    elim (admits_result l now a) [
      | inl (returns, admitted) ↦
          let rest =
            run-Follows now (allow l now a).1 ((now, a) ∷ log) calls h.1 (rw admitted at after) in
          rw (returns, run)
            (record {
              tracks = rest.tracks;
              same_global = rest.same_global ∙ same_global;
              same_actor = rest.same_actor ∙ same_actor;
            })
      | inr (e, raises, refused) ↦
          let rest = run-Follows now (allow l now a).1 log calls h.1 (rw refused at after) in
          rw (raises, run)
            (record {
              tracks = rest.tracks;
              same_global = rest.same_global ∙ same_global;
              same_actor = rest.same_actor ∙ same_actor;
            })
    ]

init-Tracks : (ar ab gr gb : ℤ) → Tracks 0 (init ar ab gr gb) []
unfolding init lookup count
init-Tracks ar ab gr gb = record {
  global = λ n h. refl;
  actor = λ a n h. refl;
  global_order = tt;
  actor_order = λ a. tt;
  global_spaced = tt;
  actor_spaced = λ a. tt;
}

init-limits :
    (ar ab gr gb : ℤ)
    → (global_limit (init ar ab gr gb) ≡ gr +ℤ gb) × (actor_limit (init ar ab gr gb) ≡ ar +ℤ ab)
unfolding init
init-limits ar ab gr gb = (refl, refl)

-- The calls that a new limiter admits out of any history.
abbrev pub admitted : ℤ → ℤ → ℤ → ℤ → List Call → List Call
admitted ar ab gr gb calls = (run (init ar ab gr gb) [] calls).1

-- Whatever calls come, while the clock does not go back: any 60 seconds, both ends included, hold
-- at most `rpm + burst` admitted calls of all actors, and at most `rpm + burst` of each one (none
-- where that sum is negative).
pub quotas_hold :
    (ar ab gr gb : ℤ) (calls : List Call) (start : ℕ) (actor : Text)
    → Ticks 0 calls
    → let log = admitted ar ab gr gb calls in
      (count (within start (start + window)) (times log) ≤ pos_part (gr +ℤ gb))
      × (count (within start (start + window)) (times_of actor log) ≤ pos_part (ar +ℤ ab))
quotas_hold ar ab gr gb calls start actor h =
    let end = run (init ar ab gr gb) [] calls in
    let f = run-Follows 0 (init ar ab gr gb) [] calls h (init-Tracks ar ab gr gb) in
    let (global, own) = init-limits ar ab gr gb in
    let t = f.tracks in
    (
      rw (← global, ← f.same_global) (Spaced-window _ start (times end.1) t.global_spaced),
      rw (← own, ← f.same_actor)
          (Spaced-window _ start (times_of actor end.1) (t.actor_spaced actor)),
    )

-- Nor does the limiter refuse a call without need: after any history, a call is refused exactly
-- when the actor, or else all actors together, had `rpm + burst` calls admitted in the 60 seconds
-- before it.
pub allow_exact :
    (ar ab gr gb : ℤ) (calls : List Call) (now : ℕ) (actor : Text)
    → Ticks 0 calls
    → last_tick 0 calls ≤ now
    → let (l, log) = run (init ar ab gr gb) [] calls in
      (allow l now actor).0 ≡ (
        if leb_ℤ (ar +ℤ ab) (pos (count (recent now) (times_of actor log)))
        then raise actor_quota_exceeded
        else if leb_ℤ (gr +ℤ gb) (pos (count (recent now) (times log)))
        then raise global_quota_exceeded
        else ok tt)
unfolding actor_full global_full
allow_exact ar ab gr gb calls now actor h later =
    let (l, log) = run (init ar ab gr gb) [] calls in
    let f = run-Follows 0 (init ar ab gr gb) [] calls h (init-Tracks ar ab gr gb) in
    let (global, own) = init-limits ar ab gr gb in
    let p = last_tick 0 calls in
    rw (
      result-allow l now actor,
      actor_full,
      global_full,
      length-actor p now actor l log later f.tracks,
      length-global p now actor l log later f.tracks,
      f.same_actor,
      f.same_global,
      own,
      global,
    )

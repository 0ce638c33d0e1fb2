-- ===== src/Db/Manager/Checks/Ready.antt =====
-- When the server is ready.
use mcp_sql_server.Db.Manager.Checks.{
  all_healthy, check_onto, health_of, healthcheck_all, healthcheck_instance, is_healthy, probe,
  probe_pool,
}
use mcp_sql_server.Db.Manager.Isolated.{pool_of-with_pool}
use mcp_sql_server.Db.Manager.{
  Health, Manager, World, list_enabled_instances, on_instance, pool_of, with_pool,
}
use mcp_sql_server.Db.Pool.Ends.{connect_ends}
use mcp_sql_server.Db.Pool.Sequential.{raised}
use mcp_sql_server.Db.Pool.{Pool}
use mcp_sql_server.Models.{SqlInstanceConfig}
use mcp_sql_server.Common.{
  Bool, Bool-cases, Dict, IsDict, Option, Outcome, Text, [], all, ap, append-nil, append_assoc,
  arith, false, inl, inr, insert, keys, lookup, lookup-insert, none, not, ok, raise, refl, some,
  sym, text_eq, text_eq_refl, text_eq_sound, true, ℕ, ◌&&◌, ◌++◌, ◌∙◌, ◌∷◌, ◌≡◌,
}

all_healthy-insert :
    (k : Text) (h : Health) (d : Dict Health)
    → lookup k d ≡ none
    → all_healthy (insert k h d) ≡ (all_healthy d && is_healthy h)
unfolding all_healthy lookup insert
all_healthy-insert k h [] e = ground arith
all_healthy-insert k h ((j, x) ∷ d) e = ground (arith, all_healthy-insert k h d)

keys-insert :
    {A : Type 0} (k : Text) (x : A) (d : Dict A)
    → lookup k d ≡ none
    → keys (insert k x d) ≡ keys d ++ k ∷ []
unfolding lookup insert
keys-insert k x [] e = refl
keys-insert k x ((j, y) ∷ d) e = ground (arith, keys-insert k x d)

missing_apart :
    {A : Type 0} (k j : Text) (x : A) (d : Dict A)
    → lookup k d ≡ none
    → lookup j d ≡ some x
    → text_eq k j ≡ false
missing_apart k j x d gone there = elim (Bool-cases (text_eq k j)) [
  | inl e ↦ absurd (let found : lookup k d ≡ some x = rw (text_eq_sound k j e) there in cc)
  | inr n ↦ n
]

module _ {C V : Type 0} (world : World C V) (clock : Text → ℕ × ℕ) where
  -- The instance answers: a connection is had, and the probe on it does not raise.
  abbrev pub answers : Option (Outcome (Unit {0}) × Pool) → Bool
  answers none = false
  answers (some (o, p)) = not (raised o)

  abbrev pub is_up : Manager → Text → SqlInstanceConfig → Bool
  is_up m instance_id inst =
      answers (probe_pool world clock instance_id inst (pool_of m instance_id))

  unfoldable pub all_up : Manager → Dict SqlInstanceConfig → Bool
  all_up m [] = true
  all_up m ((k, inst) ∷ rest) = is_up m k inst && all_up m rest

  record Checked (m : Manager) (k : Text) (inst : SqlInstanceConfig) : Type 0 where
    health : Health
    after : Manager
    ends : healthcheck_instance world clock k m ≡ some (health, after)
    verdict : is_healthy health ≡ is_up m k inst
    same_instances : after.instances ≡ m.instances
    same_others : (j : Text) → text_eq k j ≡ false → pool_of after j ≡ pool_of m j

  is_healthy-health_of :
      (o : Outcome (Unit {0})) (t : ℕ × ℕ) → is_healthy (health_of o t) ≡ not (raised o)
  unfolding health_of
  is_healthy-health_of (ok _) t = refl
  is_healthy-health_of (raise e) t = refl

  healthcheck-Checked :
      (m : Manager) (k : Text) (inst : SqlInstanceConfig)
      → lookup k m.instances ≡ some inst
      → Checked m k inst
  unfolding healthcheck_instance on_instance
  healthcheck-Checked m k inst here =
      let body = λ (conn : ℕ). (probe world clock (world.session k 0 conn)).0 in
      let ((o, p), ran) = connect_ends (world.driver k 0) inst none body (pool_of m k) in
      let h = health_of o (clock k) in
      record {
        health = h;
        after = record (with_pool m k p) { health = insert k h m.health };
        ends = rw (healthcheck_instance, on_instance, here, ran) refl;
        verdict = rw ran (is_healthy-health_of o (clock k));
        same_instances = refl;
        same_others = λ j n. pool_of-with_pool m k j p ∙ (ground arith);
      }

  check_onto-exact :
      (rest : Dict SqlInstanceConfig) (d : Dict Health) (m0 m : Manager)
      → IsDict rest
      → ((j : Text) (inst : SqlInstanceConfig)
          → lookup j rest ≡ some inst
          → (lookup j m.instances ≡ some inst) × (pool_of m j ≡ pool_of m0 j) × (lookup j d ≡ none))
      → (d' : Dict Health) × (m' : Manager) × (check_onto world clock d (keys rest) m
          ≡ some (d', m'))
        × (keys d' ≡ keys d ++ keys rest)
        × (all_healthy d' ≡ (all_healthy d && all_up m0 rest))
  unfolding check_onto all_up
  check_onto-exact [] d m0 m distinct h = (d, m, refl, sym (append-nil (keys d)), ground arith)
  check_onto-exact ((k, inst) ∷ rest) d m0 m (new, distinct) h =
      let (here, same, free) = h k inst (unfold lookup in ground (arith, text_eq_refl k)) in
      let c = healthcheck-Checked m k inst here in
      let later : (j : Text) (i : SqlInstanceConfig)
          → lookup j rest ≡ some i
          → (lookup j c.after.instances ≡ some i)
            × (pool_of c.after j ≡ pool_of m0 j)
            × (lookup j (insert k c.health d) ≡ none) =
        λ j i there.
          let apart = missing_apart k j i rest new there in
          let (at, pool, gone) = h j i (unfold lookup in ground arith) in
          (
            ap (lookup j) c.same_instances ∙ at,
            c.same_others j apart ∙ pool,
            lookup-insert k j c.health d ∙ ground (arith, gone),
          ) in
      let (d', m', ran, names, all) =
        check_onto-exact rest (insert k c.health d) m0 c.after distinct later in
      let up : is_up m k inst ≡ is_up m0 k inst =
        ap (λ p. answers (probe_pool world clock k inst p)) same in
      (
        d',
        m',
        rw (check_onto, c.ends) ran,
        names
            ∙ ap (λ ks. ks ++ keys rest) (keys-insert k c.health d free)
            ∙ append_assoc (keys d) (k ∷ []) (keys rest),
        ground (arith, all, all_healthy-insert k c.health d free, c.verdict, up),
      )

  -- The check of all instances ends, with one entry for each enabled instance, in their order; and
  -- the server is ready exactly when each of them answers: when, from its pool as it was before the
  -- checks, a connection is had and the probe on it does not raise. In particular no check
  -- disturbs that of another instance.
  pub readiness_exact :
      (m : Manager)
      → IsDict m.instances
      → (health : Dict Health) × (m' : Manager) × (healthcheck_all world clock m
          ≡ some (health, m'))
        × (keys health ≡ list_enabled_instances m)
        × (all_healthy health ≡ all_up m m.instances)
  unfolding healthcheck_all all_up all_healthy
  readiness_exact m distinct =
      check_onto-exact m.instances [] m m distinct
        (λ j inst there. (there, refl, unfold lookup in refl))

-- ===== src/Tools/Gate/Access.antt =====
-- What a call must pass before it reaches the database.
use mcp_sql_server.Middleware.WriteGuard.Lead.{Lead, blank_first}
use mcp_sql_server.Middleware.WriteGuard.{
  WriteGuard, drop_blocks, drop_lines, enforce, first_verb, first_word, is_write,
  validate_procedure, write_verbs,
}
use mcp_sql_server.Models.{AuthConfig}
use mcp_sql_server.Security.Privilege.Levels.{Shares, level_exact, raw_items}
use mcp_sql_server.Middleware.WriteGuard.Procedures.{IsListed, validate_exact}
use mcp_sql_server.Middleware.WriteGuard.Verbs.{write_refused}
use mcp_sql_server.Db.Pool.Sequential.{raised}
use mcp_sql_server.Tools.Gate.{
  Backend, Request, State, allow_request, attempt, call_procedure, check_procedure, conclude,
  exec_proc, read_database, select, touch_session, transaction,
}
use mcp_sql_server.Tools.Authorize.{
  Context, Token, auth_enforced, authorize_token, check_level, groups_claim,
  resolve_actor_and_authorize,
}
use mcp_sql_server.Security.Privilege.{
  Claim, Level, Match, none_level, read_level, resolve_group_privilege, write_level,
}
use mcp_sql_server.Common.{
  >>-returns, >>=-returns, Bool, List, Option, Outcome, Outcome-cases, Text, ap, arith, codes, elem,
  false, inl, inr, is_space, lstrip, none, ok, refl, rstrip, some, starts_with, strip, sym, text_eq,
  true, upper, upper_char, ℕ, ◌++◌, ◌∙◌, ◌∷◌, ◌≡◌, ◌⊎◌,
}

module _ {D R V : Type 0} (backend : Backend D R V) where
  -- The call has passed the authorisation, its session, its quota and the policy, in the state that
  -- each of them leaves to the next.
  abbrev pub Admitted : Level → (State D → Outcome (Unit {0})) → Request → State D → Type 0
  Admitted required policy_check q s =
      (actor : Text) × (ctx : Context) × (resolve_actor_and_authorize s.auth required q.token
          q.actor
        ≡ ok (actor, ctx))
      × ((touch_session backend q actor s).0 ≡ ok tt)
      × (let s1 = (touch_session backend q actor s).1 in
          ((allow_request backend q actor s1).0 ≡ ok tt)
          × (let s2 = (allow_request backend q actor s1).1 in policy_check s2 ≡ ok tt))

  -- The call raises, and the database is as it was.
  abbrev pub Refused : State D → Outcome (List R) × State D → Type 0
  Refused s r = (raised r.0 ≡ true) × (r.1.database ≡ s.database)

  transaction-cases :
      (required : Level) (policy_check : State D → Outcome (Unit {0}))
      (action : State D → Outcome (List R) × State D) (sql : Text) (q : Request) (s : State D)
      → Admitted required policy_check q s
        ⊎ Refused s (transaction backend required policy_check action sql q s)
  unfolding transaction conclude attempt touch_session allow_request
  transaction-cases required policy_check action sql q s =
      let auth = resolve_actor_and_authorize s.auth required q.token q.actor in
      elim (Outcome-cases auth) [
        | inr (e, no_auth) ↦ inr (rw no_auth (refl, refl))
        | inl ((actor, ctx), authorized) ↦
            let touched = touch_session backend q actor s in
            elim (Outcome-cases touched.0) [
              | inr (e, no_touch) ↦ inr (rw (authorized, no_touch) (refl, refl))
              | inl (_, in_session) ↦
                  let allowed = allow_request backend q actor touched.1 in
                  elim (Outcome-cases allowed.0) [
                    | inr (e, no_allow) ↦ inr (rw (authorized, in_session, no_allow) (refl, refl))
                    | inl (_, in_quota) ↦ elim (Outcome-cases (policy_check allowed.1)) [
                      | inr (e, no_policy) ↦
                          inr (rw (authorized, in_session, in_quota, no_policy) (refl, refl))
                      | inl (_, in_policy) ↦
                          inl (actor, ctx, authorized, in_session, (in_quota, in_policy))
                    ]
                  ]
            ]
      ]

  -- A call of `select` whose statement starts with a write verb, behind any white space, block
  -- comments that end at their first `*/` and line comments without a `/*`, never reaches the
  -- database: in deny mode, for a tool that is not in `allowed_write_tools`, it raises and leaves the
  -- database as it was.
  pub select_write-Refused :
      (q : Request) (s : State D) {p : Text} (lead : Lead p) (c : ℕ) (v t : Text)
      → s.write_guard.policy.write_mode_default ≡ codes "deny"
      → elem q.tool s.write_guard.policy.allowed_write_tools ≡ false
      → elem (upper (c ∷ v)) write_verbs ≡ true
      → blank_first t ≡ true
      → Refused s (select backend (p ++ ((c ∷ v) ++ t)) q s)
  unfolding select touch_session allow_request
  select_write-Refused q s {p} lead c v t deny unlisted verb blank =
      let sql = p ++ ((c ∷ v) ++ t) in
      let refused = write_refused s.write_guard q.tool lead c v t deny unlisted verb blank in
      elim (transaction-cases read_level (λ s. enforce s.write_guard q.tool sql)
        (λ s. read_database backend sql s.max_result_rows q s) sql q s) [
          | inr r ↦ r
          | inl (actor, ctx, _, _, (_, passed)) ↦ absurd (let both = sym passed ∙ refused in cc)
        ]

  level_ok : (l : Level) → check_level write_level l ≡ ok tt → l ≡ write_level
  unfolding check_level
  level_ok write_level h = refl
  level_ok read_level h = cc
  level_ok none_level h = cc

  writer-Shares :
      (claim : Claim) (r w : List Text) (enabled : Bool) (m : Match)
      → enabled ≡ true
      → resolve_group_privilege claim r w enabled ≡ ok (write_level, m)
      → Shares (raw_items claim) w
  writer-Shares claim r w true m on h = (level_exact claim r w write_level m h).0.0 refl
  writer-Shares claim r w false m on h = cc

  -- The claims of the call's token name one of the groups.
  abbrev pub InGroup : AuthConfig → List Text → Option Token → Type 0
  InGroup cfg groups none = ⊥
  InGroup cfg groups (some t) = Shares (raw_items (groups_claim cfg t)) groups

  authorized_writer :
      (cfg : AuthConfig) (token : Option Token) (actor actor' : Text) (ctx : Context)
      → auth_enforced (some cfg) ≡ true
      → cfg.azure_group_authorization_enabled ≡ true
      → resolve_actor_and_authorize (some cfg) write_level token actor ≡ ok (actor', ctx)
      → InGroup cfg cfg.azure_write_groups token
  unfolding resolve_actor_and_authorize authorize_token
  authorized_writer cfg none actor actor' ctx on groups h = absurd (ground arith)
  authorized_writer cfg (some t) actor actor' ctx on groups h =
      let claim = groups_claim cfg t in
      let inside : authorize_token cfg write_level t actor ≡ ok (actor', ctx) = rw on at h in
      let ((level, m), resolved, rest) =
        >>=-returns
          (resolve_group_privilege claim cfg.azure_read_groups cfg.azure_write_groups
            cfg.azure_group_authorization_enabled)
          _ inside in
      let (checked, _) = >>-returns (check_level write_level level) _ rest in
      writer-Shares claim cfg.azure_read_groups cfg.azure_write_groups
        cfg.azure_group_authorization_enabled m groups
        (resolved ∙ ap (λ l. ok (l, m)) (level_ok level checked))

  probe_writes : is_write (codes "EXEC __policy_probe__") ≡ true
  unfolding is_write first_verb drop_blocks drop_lines first_word strip lstrip rstrip is_space elem
      text_eq upper_char starts_with
  probe_writes = refl

  probe_passes :
      (g : WriteGuard) (tool : Text)
      → enforce g tool (codes "EXEC __policy_probe__") ≡ ok tt
      → (text_eq g.policy.write_mode_default (codes "deny") ≡ false)
        ⊎ (elem tool g.policy.allowed_write_tools ≡ true)
  unfolding enforce
  probe_passes g tool h = ground (arith, probe_writes)

  -- With authentication and group authorization on, a call of `exec_proc` that does not raise, or
  -- that touches the database, has a token with one of the write groups, its tool is in
  -- `allowed_write_tools` or the mode is not deny, and the tool's lists hold a name of the same
  -- normal form as the procedure's: of a name with dots the last two parts, in lower case and without
  -- brackets, whatever stands before them.
  pub exec_guarded :
      (proc_name : Text) (params : List V) (q : Request) (s : State D) (cfg : AuthConfig)
      → s.auth ≡ some cfg
      → auth_enforced (some cfg) ≡ true
      → cfg.azure_group_authorization_enabled ≡ true
      → (InGroup cfg cfg.azure_write_groups q.token
          × IsListed s.write_guard q.tool proc_name
          × ((text_eq s.write_guard.policy.write_mode_default (codes "deny") ≡ false)
              ⊎ (elem q.tool s.write_guard.policy.allowed_write_tools ≡ true)))
        ⊎ Refused s (exec_proc backend proc_name params q s)
  unfolding exec_proc touch_session allow_request check_procedure
  exec_guarded proc_name params q s cfg with_auth on groups =
      elim (transaction-cases write_level (check_procedure backend proc_name q)
        (call_procedure backend proc_name params q) (codes "EXEC " ++ proc_name) q s) [
          | inr r ↦ inr r
          | inl (actor, ctx, authorized, _, (_, passed)) ↦
              let a : resolve_actor_and_authorize (some cfg) write_level q.token q.actor
                  ≡ ok (actor, ctx) =
                rw with_auth at authorized in
              let (listed, enforced) =
                >>-returns (validate_procedure s.write_guard q.tool proc_name)
                  (enforce s.write_guard q.tool (codes "EXEC __policy_probe__")) passed in
              inl (
                authorized_writer cfg q.token q.actor actor ctx on groups a,
                (validate_exact s.write_guard q.tool proc_name).0 listed,
                probe_passes s.write_guard q.tool enforced,
              )
        ]

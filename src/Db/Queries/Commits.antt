-- ===== src/Db/Queries/Commits.antt =====
-- What a call of a procedure makes durable: all or nothing, if its own text commits nothing.
use mcp_sql_server.Db.Queries.{Cursor, ProcResult, exec_statement, proc_op}
use mcp_sql_server.Common.{
  Bool-cases, Error, List, Outcome, Text, and_then, inl, inr, length, ok, raise, refl, ◌∙◌, ◌≡◌,
  ◌⊎◌,
}

-- The statement `sql` commits nothing itself, and neither does a fetch: the connection has its
-- autocommit off, and the text has no COMMIT.
pub record NoCommit {C V W : Type 0} (cursor : Cursor C V) (durable : C → W) (sql : Text)
    : Type 0 where
  pub by_execute : (params : List V) (c : C) → durable (cursor.execute sql params c).1 ≡ durable c
  pub by_fetchall : (c : C) → durable (cursor.fetchall c).1 ≡ durable c

module _ {C V W : Type 0} (cursor : Cursor C V) (durable : C → W) where
  -- How a call of a procedure ends: it returns, and its last step was a commit that succeeded; or it
  -- raises, with nothing durable, unless the commit itself raised.
  abbrev pub Ends : W → Outcome (ProcResult V) × C → Type 0
  Ends w end =
      ((r : ProcResult V) × (before : C) × (end.0 ≡ ok r)
        × (cursor.commit before ≡ (ok tt, end.1))
        × (durable before ≡ w))
      ⊎ ((e : Error) × (end.0 ≡ raise e)
          × ((durable end.1 ≡ w) ⊎ ((before : C) × (cursor.commit before ≡ (raise e, end.1)))))

  and_then-Ends :
      {A : Type 0} (w : W) (first : Outcome A × C) (after : A → C → Outcome (ProcResult V) × C)
      → durable first.1 ≡ w
      → ((a : A) (c : C) → durable c ≡ w → Ends w (after a c))
      → Ends w (and_then first after)
  and_then-Ends w (ok a, c) after h k = k a c h
  and_then-Ends w (raise e, c) after h k = inr (e, refl, inl h)

  committed-Ends :
      (w : W) (before : C) (o : Outcome (Unit {0})) (c : C) (r : C → ProcResult V)
      → durable before ≡ w
      → cursor.commit before ≡ (o, c)
      → Ends w (and_then (o, c) (λ _ c. (ok (r c), c)))
  committed-Ends w before (ok tt) c r h e = inl (r c, before, refl, e, h)
  committed-Ends w before (raise x) c r h e = inr (x, refl, inr (before, e))

  -- A call of a procedure whose own text commits nothing, on a connection with its autocommit off,
  -- is all or nothing: it returns after a commit that succeeded, with nothing durable before that;
  -- and if it raises it has made nothing durable, unless it is the commit that raised.
  pub proc_atomic :
      (proc_name : Text) (params : List V) (c : C)
      → NoCommit cursor durable (exec_statement proc_name (length params))
      → Ends (durable c) (proc_op cursor proc_name params c)
  unfolding proc_op
  proc_atomic proc_name params c laws =
      let w = durable c in
      let sql = exec_statement proc_name (length params) in
      and_then-Ends w (cursor.execute sql params c) _ (laws.by_execute params c) λ _ c1 h.
        elim (Bool-cases (cursor.has_description c1)) [
          | inl has ↦ rw has (
              and_then-Ends w (cursor.fetchall c1) _ (laws.by_fetchall c1 ∙ h)
                λ rows c2 k. committed-Ends w c2 (cursor.commit c2).0 (cursor.commit c2).1 _ k refl)
          | inr none_there ↦
              rw none_there (committed-Ends w c1 (cursor.commit c1).0 (cursor.commit c1).1 _ h refl)
        ]

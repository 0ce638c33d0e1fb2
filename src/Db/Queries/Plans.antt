-- ===== src/Db/Queries/Plans.antt =====
-- `explain_query`: the connection after it, and the report of the plan.
use mcp_sql_server.Security.Privilege.Levels.{In-to_set, to_set-In}
use mcp_sql_server.Security.Privilege.{insert_sorted, sorted, text_leb, to_set}
use mcp_sql_server.Db.Pool.Sequential.{Driver, raised, release_connection}
use mcp_sql_server.Db.Pool.{Pool, give_back}
use mcp_sql_server.Db.Queries.{
  Cursor, Values, columns_of, explain_op, finally_execute, object_of, objects_of, plan_of,
  showplan_off, showplan_on,
}
use mcp_sql_server.Models.{SqlInstanceConfig}
use mcp_sql_server.Common.{
  Bool, Bool-cases, Dict, In, In-append, In-append_left, In-append_right, List, Outcome, Text, [],
  and_then, arith, false, inl, inr, ok, raise, refl, true, ℕ, ◌↔◌, ◌∷◌, ◌≡◌, ◌⊎◌,
}

release_raised :
    (d : Driver) (inst : SqlInstanceConfig) (p : Pool) (conn : ℕ) (pooled : Bool)
    → (release_connection d inst p conn pooled true).0 ≡ true
unfolding release_connection give_back
release_raised d inst p conn pooled = ground arith

finally-off :
    {C V A : Type 0} (cursor : Cursor C V) (shows_plan : C → Bool) (r : Outcome A × C)
    → ((c c' : C) → cursor.execute showplan_off [] c ≡ (ok tt, c') → shows_plan c' ≡ false)
    → (raised (finally_execute cursor showplan_off r).0 ≡ true)
      ⊎ (shows_plan (finally_execute cursor showplan_off r).1 ≡ false)
unfolding finally_execute
finally-off {C = C} cursor shows_plan (o, c) off =
    after_off (cursor.execute showplan_off [] c).0 (cursor.execute showplan_off [] c).1 refl
  where
    after_off :
        (last : Outcome (Unit {0})) (c' : C)
        → cursor.execute showplan_off [] c ≡ (last, c')
        → (raised (elim last [ ok _ ↦ o | raise e ↦ raise e ]) ≡ true) ⊎ (shows_plan c' ≡ false)
    after_off (ok tt) c' e = inr (off c c' e)
    after_off (raise x) c' e = inl refl

-- On a driver where a successful SHOWPLAN_ALL OFF ends the mode that shows plans in place of running
-- statements: however `explain_query` ends on a connection, either the connection is closed when it
-- is released, pooled or not, or it is no longer in that mode.
pub plan_mode_ends :
    {C V : Type 0} (cursor : Cursor C V) (shows_plan : C → Bool) (sql : Text) (c : C) (d : Driver)
    (inst : SqlInstanceConfig) (p : Pool) (conn : ℕ) (pooled : Bool)
    → ((c c' : C) → cursor.execute showplan_off [] c ≡ (ok tt, c') → shows_plan c' ≡ false)
    → let (o, c') = explain_op cursor sql c in
      ((release_connection d inst p conn pooled (raised o)).0 ≡ true) ⊎ (shows_plan c' ≡ false)
unfolding explain_op
plan_mode_ends {C = C} {V = V} cursor shows_plan sql c d inst p conn pooled off =
    after_on (cursor.execute showplan_on [] c)
  where
    rest : Unit {0} → C → Outcome (List Text × List (List V)) × C
    rest _ c = finally_execute cursor showplan_off (
        and_then (cursor.execute sql [] c) (λ _ c.
          let columns = columns_of cursor c in
          and_then (cursor.fetchall c) (λ rows c. (ok (columns, rows), c))))

    closed :
        (o : Outcome (List Text × List (List V)))
        → raised o ≡ true
        → (release_connection d inst p conn pooled (raised o)).0 ≡ true
    closed o h = rw h (release_raised d inst p conn pooled)

    after_on :
        (first : Outcome (Unit {0}) × C)
        → ((release_connection d inst p conn pooled (raised (and_then first rest).0)).0 ≡ true)
          ⊎ (shows_plan (and_then first rest).1 ≡ false)
    after_on (raise e, c1) = inl (release_raised d inst p conn pooled)
    after_on (ok tt, c1) = elim (finally-off cursor shows_plan _ off) [
      | inl h ↦ inl (closed _ h)
      | inr h ↦ inr h
    ]

insert_sorted-In : (g x : Text) (xs : List Text) → In g (insert_sorted x xs) ↔ In g (x ∷ xs)
unfolding insert_sorted
insert_sorted-In g x [] = (λ m. m, λ m. m)
insert_sorted-In g x (y ∷ ys) = elim (Bool-cases (text_leb x y)) [
  | inl le ↦ rw le (λ m. m, λ m. m)
  | inr gt ↦
      let (there, back) = insert_sorted-In g x ys in
      rw gt (
        λ m. elim m [
          | inl e ↦ inr (inl e)
          | inr later ↦ elim (there later) [ inl e ↦ inl e | inr deep ↦ inr (inr deep) ]
        ],
        λ m. elim m [
          | inl e ↦ inr (back (inl e))
          | inr later ↦ elim later [ inl e ↦ inl e | inr deep ↦ inr (back (inr deep)) ]
        ],
      )
]

sorted-In : (g : Text) (xs : List Text) → In g (sorted xs) ↔ In g xs
unfolding sorted
sorted-In g [] = (λ m. m, λ m. m)
sorted-In g (x ∷ xs) =
    let (there, back) = sorted-In g xs in
    let (t, b) = insert_sorted-In g x (sorted xs) in
    (
      λ m. elim (t m) [ inl e ↦ inl e | inr later ↦ inr (there later) ],
      λ m. b (elim m [ inl e ↦ inl e | inr later ↦ inr (back later) ]),
    )

module _ {V F : Type 0} (values : Values V F) where
  objects_of-In :
      (g : Text) (rows : List (Dict V))
      → In g (objects_of values rows) ↔ ((row : Dict V) × In row rows × In g (object_of values row))
  objects_of-In g [] = (λ m. absurd m, λ (row, at, own). absurd at)
  objects_of-In g (row ∷ rows) =
      let (there, back) = objects_of-In g rows in
      (
        λ m. elim (In-append g (object_of values row) (objects_of values rows) m) [
          | inl own ↦ (row, inl refl, own)
          | inr later ↦ let (other, at, own) = there later in (other, inr at, own)
        ],
        λ (other, at, own). elim at [
          | inl e ↦ In-append_left g (object_of values row) (objects_of values rows) (rw e own)
          | inr later ↦
              In-append_right g (object_of values row) (objects_of values rows)
                (back (other, later, own))
        ],
      )

  -- The report names an object exactly when a row of the plan has it under "Object", as a value
  -- that is true.
  pub plan_objects_exact :
      (g : Text) (rows : List (Dict V))
      → In g (plan_of values rows).accessed_objects
        ↔ ((row : Dict V) × In row rows × In g (object_of values row))
  unfolding plan_of
  plan_objects_exact g rows =
      let (there, back) = sorted-In g (to_set (objects_of values rows)) in
      let (t, b) = objects_of-In g rows in
      (
        λ m. t (to_set-In g (objects_of values rows) (there m)),
        λ m. back (In-to_set g (objects_of values rows) (b m)),
      )

-- ===== src/Db/Queries/Cells.antt =====
-- A row becomes a dictionary: nothing of it is lost.
use mcp_sql_server.Db.Columns.Unique.{Distinct, columns-Distinct}
use mcp_sql_server.Db.Queries.{Cursor, Result, columns_of, read_op, row_dict, row_dicts, zip_onto}
use mcp_sql_server.Common.{
  Bool-cases, Dict, List, Option, Text, [], ap, arith, elem, false, get_elem?, if◌then◌else◌, inl,
  inr, insert, length, lookup, lookup-insert, map, none, ok, refl, some, suc, text_eq, text_eq_iff,
  text_eq_refl, text_eq_sound, true, zero, ℕ, ℤ, ◌∙◌, ◌∷◌, ◌≡◌,
}

-- The cell under the first of the names that is `k`.
abbrev pub cell_of : {V : Type 0} → Text → List Text → List V → Option V
cell_of k [] row = none
cell_of k (c ∷ columns) [] = none
cell_of k (c ∷ columns) (x ∷ row) =
    let rest = cell_of k columns row in if text_eq c k then some x else rest

elem-get : (xs : List Text) (i : ℕ) (k : Text) → get_elem? xs i ≡ some k → elem k xs ≡ true
unfolding elem
elem-get [] i k h = cc
elem-get (x ∷ xs) zero k h = ground (arith, text_eq_refl k, h)
elem-get (x ∷ xs) (suc i) k h = ground (arith, elem-get xs i k h)

length-map : {A B : Type 0} (f : A → B) (xs : List A) → length (map f xs) ≡ length xs
length-map f [] = refl
length-map f (x ∷ xs) = ap suc (length-map f xs)

module _ {V : Type 0} where
  lookup-zip_onto_absent :
      (k : Text) (d : Dict V) (columns : List Text) (row : List V)
      → elem k columns ≡ false
      → lookup k (zip_onto d columns row) ≡ lookup k d
  unfolding zip_onto elem
  lookup-zip_onto_absent k d [] row h = refl
  lookup-zip_onto_absent k d (c ∷ columns) [] h = refl
  lookup-zip_onto_absent k d (c ∷ columns) (x ∷ row) h = ground (
    arith,
    lookup-zip_onto_absent k (insert c x d) columns row,
    lookup-insert c k x d,
    text_eq_iff c k,
    text_eq_iff k c,
  )

  abbrev pub or_else : Option V → Option V → Option V
  or_else none o = o
  or_else (some x) o = some x

  or_else-none : (o : Option V) → or_else o none ≡ o
  or_else-none none = refl
  or_else-none (some x) = refl

  pub lookup-zip_onto :
      (k : Text) (d : Dict V) (columns : List Text) (row : List V)
      → Distinct columns
      → lookup k (zip_onto d columns row) ≡ or_else (cell_of k columns row) (lookup k d)
  unfolding zip_onto elem
  lookup-zip_onto k d [] row h = refl
  lookup-zip_onto k d (c ∷ columns) [] h = refl
  lookup-zip_onto k d (c ∷ columns) (x ∷ row) h = elim (Bool-cases (text_eq c k)) [
    | inl e ↦
        let absent : elem k columns ≡ false = rw (← text_eq_sound c k e) h.0 in
        rw e (
          lookup-zip_onto_absent k (insert c x d) columns row absent
          ∙ lookup-insert c k x d
          ∙ (ground arith))
    | inr n ↦ rw n (
        lookup-zip_onto k (insert c x d) columns row h.1
        ∙ ap (or_else (cell_of k columns row)) (lookup-insert c k x d ∙ (ground arith)))
  ]

  cell_of-get :
      (columns : List Text) (row : List V) (i : ℕ) (k : Text)
      → Distinct columns
      → get_elem? columns i ≡ some k
      → cell_of k columns row ≡ get_elem? row i
  unfolding elem
  cell_of-get [] row i k h e = cc
  cell_of-get (c ∷ columns) [] i k h e = refl
  cell_of-get (c ∷ columns) (x ∷ row) zero k h e = ground (arith, text_eq_refl c, e)
  cell_of-get (c ∷ columns) (x ∷ row) (suc i) k h e =
      let there = elem-get columns i k e in
      ground (arith, text_eq_iff c k, cell_of-get columns row i k h.1 e)

  get-map :
      {B : Type 0} (f : B → V) (xs : List B) (i : ℕ) (x : B)
      → get_elem? xs i ≡ some x
      → get_elem? (map f xs) i ≡ some (f x)
  get-map f [] i x h = cc
  get-map f (y ∷ xs) zero x h = cc
  get-map f (y ∷ xs) (suc i) x h = get-map f xs i x h

columns_of-Distinct :
    {C V : Type 0} (cursor : Cursor C V) (c : C)
    → Distinct (columns_of cursor c) × (length (columns_of cursor c) ≡ length (cursor.names c))
unfolding columns_of
columns_of-Distinct cursor c =
    let (names, found, distinct, size) = columns-Distinct (cursor.names c) in
    rw found (distinct, size)

-- A row read from the database becomes a dictionary that has each of its cells, whatever the names of
-- the columns are, repeated or missing: the result has one name for each column, and as many rows as
-- were fetched, and each row has under the name of a column the value that the database gave there.
pub read_exact :
    {C V : Type 0} (cursor : Cursor C V) (sql : Text) (max_rows : ℤ) (c c1 c2 : C)
    (fetched : List (List V))
    → cursor.execute sql [] c ≡ (ok tt, c1)
    → cursor.fetchmany max_rows c1 ≡ (ok fetched, c2)
    → (r : Result V) × (read_op cursor sql max_rows c ≡ (ok r, c2))
      × (length r.columns ≡ length (cursor.names c1))
      × (length r.rows ≡ length fetched)
      × ((i j : ℕ) (k : Text) (row : List V)
          → get_elem? r.columns i ≡ some k
          → get_elem? fetched j ≡ some row
          → (d : Dict V) × (get_elem? r.rows j ≡ some d) × (lookup k d ≡ get_elem? row i))
unfolding read_op lookup
read_exact cursor sql max_rows c c1 c2 fetched runs fetches =
    let columns = columns_of cursor c1 in
    let (distinct, size) = columns_of-Distinct cursor c1 in
    (
      record { columns = columns; rows = row_dicts cursor columns fetched },
      rw (runs, fetches) refl,
      size,
      length-map (row_dict columns) fetched,
      λ i j k row at_i at_j. (
        row_dict columns row,
        get-map (row_dict columns) fetched j row at_j,
        lookup-zip_onto k [] columns row distinct
            ∙ ap (λ o. or_else o none) (cell_of-get columns row i k distinct at_i)
            ∙ or_else-none (get_elem? row i),
      ),
    )

-- ===== src/Tools/Graph/Walks.antt =====
-- Walks along the edges.
use mcp_sql_server.Tools.Graph.{Edge, dfs, either_of, neighbours, scan}
use mcp_sql_server.Common.{
  Bool, Bool-cases, List, Option, Text, [], ap, arith, elem, false, if◌then◌else◌, inl, inr, none,
  refl, some, suc, sym, text_eq, text_eq_iff, text_eq_refl, true, zero, ℕ, ◌||◌, ◌∙◌, ◌∷◌, ◌≡◌, ◌⊎◌,
}

-- A walk from a node over these nodes, in their order, to another.
abbrev pub Walk : List Edge → Text → List Text → Text → Type 0
Walk edges a [] b = elem b (neighbours edges a) ≡ true
Walk edges a (v ∷ vs) b = (elem v (neighbours edges a) ≡ true) × Walk edges v vs b

-- No node of the list stands in it twice, and none of them is one of the others.
abbrev pub Simple : List Text → List Text → Type 0
Simple seen [] = Unit
Simple seen (v ∷ vs) = (elem v seen ≡ false) × Simple (v ∷ seen) vs

either_of-some :
    (here b : Bool) (o r : Option Bool)
    → either_of here o r ≡ some b
    → (below : Bool) × (rest : Bool) × (o ≡ some below)
      × (r ≡ some rest)
      × ((here || below || rest) ≡ b)
either_of-some here b none r h = cc
either_of-some here b (some below) none h = cc
either_of-some here b (some below) (some rest) h = (below, rest, refl, refl, cc)

scan_sound :
    (visit : Text → Option Bool) (start : Text) (seen ns : List Text)
    → scan visit start seen ns ≡ some true
    → (elem start ns ≡ true) ⊎ ((n : Text) × (elem n ns ≡ true) × (visit n ≡ some true))
unfolding scan elem
scan_sound visit start seen [] h = cc
scan_sound visit start seen (n ∷ ns) h =
    let (below, rest, into, later, any_of) =
      either_of-some (text_eq n start) true (if elem n seen then some false else visit n)
        (scan visit start seen ns) h in
    elim (Bool-cases (text_eq n start)) [
      | inl here ↦ inl (ground (arith, here, text_eq_iff n start, text_eq_iff start n))
      | inr other_node ↦ elim (Bool-cases below) [
        | inl under ↦ inr (n, ground (arith, text_eq_refl n), ground (arith, into, under))
        | inr not_under ↦
            let found : scan visit start seen ns ≡ some true =
              later ∙ ap some (ground (arith, any_of, other_node, not_under)) in
            elim (scan_sound visit start seen ns found) [
              | inl near ↦ inl (ground (arith, near))
              | inr (m, near, hit) ↦ inr (m, ground (arith, near), hit)
            ]
      ]
    ]

pub dfs_sound :
    (fuel : ℕ) (edges : List Edge) (start current : Text) (seen : List Text)
    → dfs fuel edges start current seen ≡ some true
    → (vs : List Text) × Walk edges current vs start
unfolding dfs
dfs_sound zero edges start current seen h = cc
dfs_sound (suc fuel) edges start current seen h =
    elim (scan_sound _ start seen (neighbours edges current) h) [
      | inl direct ↦ ([], direct)
      | inr (n, near, found) ↦
          let (vs, walk) = dfs_sound fuel edges start n (n ∷ seen) found in (n ∷ vs, (near, walk))
    ]

scan-direct :
    (visit : Text → Option Bool) (start : Text) (seen ns : List Text) (b : Bool)
    → elem start ns ≡ true
    → scan visit start seen ns ≡ some b
    → b ≡ true
unfolding scan elem
scan-direct visit start seen [] b near h = cc
scan-direct visit start seen (n ∷ ns) b near h =
    let (below, rest, into, later, any_of) =
      either_of-some (text_eq n start) b (if elem n seen then some false else visit n)
        (scan visit start seen ns) h in
    ground (
      arith,
      any_of,
      text_eq_iff n start,
      text_eq_iff start n,
      (λ (near' : elem start ns ≡ true). scan-direct visit start seen ns rest near' later),
    )

scan-below :
    (visit : Text → Option Bool) (start n : Text) (seen ns : List Text) (b : Bool)
    → elem n ns ≡ true
    → elem n seen ≡ false
    → scan visit start seen ns ≡ some b
    → (below : Bool) × (visit n ≡ some below) × (below ≡ true → b ≡ true)
unfolding scan elem
scan-below visit start n seen [] b near new h = cc
scan-below visit start n seen (m ∷ ns) b near new h =
    let (below, rest, into, later, any_of) =
      either_of-some (text_eq m start) b (if elem m seen then some false else visit m)
        (scan visit start seen ns) h in
    elim (Bool-cases (text_eq n m)) [
      | inl same ↦
          let e : m ≡ n = sym ((text_eq_iff n m).0 same) in
          let entered : (if elem n seen then some false else visit n) ≡ some below =
            ap (λ (x : Text). if elem x seen then some false else visit x) (sym e) ∙ into in
          (below, ground (arith, entered, new), λ up. ground (arith, any_of, up))
      | inr apart ↦
          let (under, visited, up) =
            scan-below visit start n seen ns rest (ground (arith, near, apart)) new later in
          (under, visited, λ hit. ground (arith, any_of, up hit))
    ]

pub dfs_complete :
    (vs : List Text) (fuel : ℕ) (edges : List Edge) (start current : Text) (seen : List Text)
    (b : Bool)
    → Walk edges current vs start
    → Simple seen vs
    → dfs fuel edges start current seen ≡ some b
    → b ≡ true
unfolding dfs
dfs_complete vs zero edges start current seen b walk simple h = cc
dfs_complete [] (suc fuel) edges start current seen b walk simple h =
    scan-direct _ start seen (neighbours edges current) b walk h
dfs_complete (v ∷ vs) (suc fuel) edges start current seen b walk simple h =
    let (below, visited, up) =
      scan-below _ start v seen (neighbours edges current) b walk.0 simple.0 h in
    up (dfs_complete vs fuel edges start v (v ∷ seen) below walk.1 simple.1 visited)

-- ===== src/Tools/Graph/Exact.antt =====
-- The tables on a cycle are found, and no others.
use mcp_sql_server.Tools.Graph.Cycles.{erase}
use mcp_sql_server.Tools.Graph.Walks.{Walk, dfs_complete, dfs_sound}
use mcp_sql_server.Tools.Graph.{
  Edge, Graph, Row, added, build_fk_graph, cycle_hits, dfs, edge_of, neighbours, nodes_of, scan,
}
use mcp_sql_server.Security.Privilege.{insert_sorted, sorted}
use mcp_sql_server.Common.{
  Bool, Bool-cases, List, Option, Text, [], ap, arith, count, elem, false, if◌then◌else◌, inl, inr,
  length, map, not, refl, some, suc, sym, text_eq, text_eq_iff, text_eq_refl, true, zero, ℕ, ◌<◌,
  ◌||◌, ◌↔◌, ◌∙◌, ◌∷◌, ◌≡◌, ◌≤◌,
}

-- How many of the nodes have not been seen.
unseen : List Text → List Text → ℕ
unseen seen nodes = count (λ x. not (elem x seen)) nodes

unseen-le : (n : Text) (seen nodes : List Text) → unseen (n ∷ seen) nodes ≤ unseen seen nodes
unfolding unseen count elem
unseen-le n seen [] = omega arith
unseen-le n seen (x ∷ nodes) = ground (arith, unseen-le n seen nodes)

unseen-lt :
    (n : Text) (seen nodes : List Text)
    → elem n nodes ≡ true
    → elem n seen ≡ false
    → unseen (n ∷ seen) nodes < unseen seen nodes
unfolding unseen count elem
unseen-lt n seen [] m new = cc
unseen-lt n seen (x ∷ nodes) m new =
    ground
      (arith, unseen-le n seen nodes, unseen-lt n seen nodes, text_eq_iff x n, text_eq_iff n x, new)

unseen-length : (seen nodes : List Text) → unseen seen nodes ≤ length nodes
unfolding unseen count
unseen-length seen [] = omega arith
unseen-length seen (x ∷ nodes) = ground (arith, unseen-length seen nodes)

scan-total :
    (visit : Text → Option Bool) (start : Text) (seen ns : List Text)
    → ((n : Text) → elem n ns ≡ true → elem n seen ≡ false → (b : Bool) × (visit n ≡ some b))
    → (b : Bool) × (scan visit start seen ns ≡ some b)
unfolding scan elem
scan-total visit start seen [] h = (false, refl)
scan-total visit start seen (n ∷ ns) h =
    let (rest, later) = scan-total visit start seen ns (λ m near. h m (ground (arith, near))) in
    elim (Bool-cases (elem n seen)) [
      | inl old ↦ (text_eq n start || false || rest, rw (old, later) refl)
      | inr new ↦
          let (below, visited) = h n (ground (arith, text_eq_refl n)) new in
          (text_eq n start || below || rest, rw (new, visited, later) refl)
    ]

dfs-total :
    (fuel : ℕ) (edges : List Edge) (start current : Text) (seen nodes : List Text)
    → ((a n : Text) → elem n (neighbours edges a) ≡ true → elem n nodes ≡ true)
    → unseen seen nodes < fuel
    → (b : Bool) × (dfs fuel edges start current seen ≡ some b)
unfolding dfs
dfs-total zero edges start current seen nodes inside h = absurd (omega arith)
dfs-total (suc fuel) edges start current seen nodes inside h =
    scan-total (λ n. dfs fuel edges start n (n ∷ seen)) start seen (neighbours edges current)
      (λ n near new.
        dfs-total fuel edges start n (n ∷ seen) nodes inside
          (omega (arith, unseen-lt n seen nodes (inside current n near) new)))

elem-added : (x y : Text) (ys : List Text) → elem x (added y ys) ≡ (text_eq x y || elem x ys)
unfolding elem
elem-added x y ys = ground (arith, text_eq_iff x y)

elem-insert_sorted :
    (x y : Text) (ys : List Text) → elem x (insert_sorted y ys) ≡ (text_eq x y || elem x ys)
unfolding insert_sorted elem
elem-insert_sorted x y [] = refl
elem-insert_sorted x y (z ∷ ys) = ground (arith, elem-insert_sorted x y ys)

source-node :
    (edges : List Edge) (a n : Text)
    → elem n (neighbours edges a) ≡ true
    → (elem a (nodes_of edges) ≡ true) × (elem n (nodes_of edges) ≡ true)
unfolding neighbours nodes_of elem
source-node [] a n h = cc
source-node (e ∷ edges) a n h = ground (
  arith,
  source-node edges a n,
  text_eq_iff e.source a,
  text_eq_iff a e.source,
  text_eq_iff n e.target,
  elem-added a e.source (added e.target (nodes_of edges)),
  elem-added n e.source (added e.target (nodes_of edges)),
  elem-added a e.target (nodes_of edges),
  elem-added n e.target (nodes_of edges),
  h,
)

elem-sorted : (x : Text) (xs : List Text) → elem x (sorted xs) ≡ elem x xs
unfolding sorted elem
elem-sorted x [] = refl
elem-sorted x (y ∷ ys) =
    elem-insert_sorted x y (sorted ys) ∙ ap (λ (b : Bool). text_eq x y || b) (elem-sorted x ys)

-- The search from a node answers whether a walk leads from it to itself.
abbrev Answers : List Edge → Text → Bool → Type 0
Answers edges t hit = (hit ≡ true) ↔ ((vs : List Text) × Walk edges t vs t)

fuel_enough :
    (t : Text) (nodes : List Text) → elem t nodes ≡ true → unseen (t ∷ []) nodes < length nodes
unfolding elem
fuel_enough t nodes node = omega (arith, unseen-lt t [] nodes node refl, unseen-length [] nodes)

hits-cons :
    (edges : List Edge) (n : Text) (ns : List Text) (fuel : ℕ) (hits : List Text) (hit : Bool)
    → cycle_hits edges ns fuel ≡ some hits
    → dfs fuel edges n n (n ∷ []) ≡ some hit
    → cycle_hits edges (n ∷ ns) fuel ≡ some (if hit then n ∷ hits else hits)
unfolding cycle_hits
hits-cons edges n ns fuel hits hit found ran = rw (found, ran) refl

one_more :
    (edges : List Edge) (n : Text) (ns hits : List Text) (hit : Bool) (t : Text)
    → ((elem t hits ≡ true) ↔ ((elem t ns ≡ true) × ((vs : List Text) × Walk edges t vs t)))
    → Answers edges n hit
    → (elem t (if hit then n ∷ hits else hits) ≡ true)
      ↔ ((elem t (n ∷ ns) ≡ true) × ((vs : List Text) × Walk edges t vs t))
unfolding elem
one_more edges n ns hits true t each answer = (
  (λ m. elim (Bool-cases (text_eq t n)) [
    | inl same ↦
        let e = (text_eq_iff t n).0 same in
        let (vs, walk) = answer.0 refl in (ground (arith, same), (vs, rw e walk))
    | inr apart ↦
        let (there, walk) = each.0 (ground (arith, m, apart)) in (ground (arith, there), walk)
  ]),
  (λ both. elim (Bool-cases (text_eq t n)) [
    | inl same ↦ ground (arith, same)
    | inr apart ↦
        let found = each.1 (ground (arith, both.0, apart), both.1) in ground (arith, found)
  ]),
)
one_more edges n ns hits false t each answer = (
  (λ m. let (there, walk) = each.0 m in (ground (arith, there), walk)),
  (λ both. elim (Bool-cases (text_eq t n)) [
    | inl same ↦
        let e = (text_eq_iff t n).0 same in
        let at_n : Walk edges n both.1.0 n = rw (← e) both.1.1 in
        absurd (let bad = answer.1 (both.1.0, at_n) in cc)
    | inr apart ↦ each.1 (ground (arith, both.0, apart), both.1)
  ]),
)

search :
    (edges : List Edge) (t : Text)
    → elem t (nodes_of edges) ≡ true
    → (hit : Bool) × (dfs (length (nodes_of edges)) edges t t (t ∷ []) ≡ some hit)
      × Answers edges t hit
search edges t node =
    let nodes = nodes_of edges in
    let (hit, ran) =
      dfs-total (length nodes) edges t t (t ∷ []) nodes (λ a n near. (source-node edges a n near).1)
        (fuel_enough t nodes node) in
    (
      hit,
      ran,
      (
        (λ yes. dfs_sound (length nodes) edges t t (t ∷ []) (ran ∙ ap some yes)),
        (λ round.
            let (ws, walk, simple) = erase edges t round.0 t round.1 in
            dfs_complete ws (length nodes) edges t t (t ∷ []) hit walk simple ran),
      ),
    )

Walk-node :
    (edges : List Edge) (a : Text) (vs : List Text) (b : Text)
    → Walk edges a vs b
    → elem a (nodes_of edges) ≡ true
Walk-node edges a [] b walk = (source-node edges a b walk).0
Walk-node edges a (v ∷ vs) b walk = (source-node edges a v walk.0).0

-- The hits among some of the nodes.
hits_of :
    (edges : List Edge) (ns : List Text)
    → ((t : Text) → elem t ns ≡ true → elem t (nodes_of edges) ≡ true)
    → (hits : List Text) × (cycle_hits edges ns (length (nodes_of edges)) ≡ some hits)
      × ((t : Text)
          → (elem t hits ≡ true) ↔ ((elem t ns ≡ true) × ((vs : List Text) × Walk edges t vs t)))
unfolding elem
hits_of edges [] sub = ([], unfold cycle_hits in refl, λ t. ((λ bad. cc), (λ both. both.0)))
hits_of edges (n ∷ ns) sub =
    let (hits, found, each) = hits_of edges ns (λ t m. sub t (ground (arith, m))) in
    let (hit, ran, answer) = search edges n (sub n (ground (arith, text_eq_refl n))) in
    (
      (if hit then n ∷ hits else hits),
      hits-cons edges n ns (length (nodes_of edges)) hits hit found ran,
      (λ t. one_more edges n ns hits hit t (each t) answer),
    )

-- The graph is built, whatever the foreign keys are, and a table is among
-- `circular_dependency_tables` exactly if a walk of at least one foreign key, over any tables,
-- leads from it back to itself.
pub circular_exact :
    (rows : List Row)
    → (g : Graph) × (build_fk_graph rows ≡ some g)
      × ((t : Text)
          → (elem t g.circular_dependency_tables ≡ true)
            ↔ ((vs : List Text) × Walk (map edge_of rows) t vs t))
unfolding build_fk_graph
circular_exact rows =
    let edges = map edge_of rows in
    let nodes = nodes_of edges in
    let (hits, found, each) = hits_of edges nodes (λ t m. m) in
    (
      record {
        node_count = length nodes;
        edge_count = length edges;
        circular_dependency_tables = sorted hits;
        edges = edges;
      },
      rw found refl,
      (λ t. (
        (λ m. ((each t).0 (sym (elem-sorted t hits) ∙ m)).1),
        (λ round. elem-sorted t hits ∙ (each t).1 (Walk-node edges t round.0 t round.1, round)),
      )),
    )

-- ===== src/Tools/Graph.antt =====
-- tools/model_graph.py: `build_fk_graph`. A set is the list of its elements.
pub mod Walks
pub mod Cycles
pub mod Exact
use mcp_sql_server.Security.Privilege.{sorted}
use mcp_sql_server.Common.{
  Bool, List, Option, Text, [], elem, false, if◌then◌else◌, length, map, none, some, suc, text_eq,
  zero, ℕ, ◌++◌, ◌||◌, ◌∷◌,
}
use mathlib.Core.Option

-- A row, with the values of its columns as an f-string shows them.
pub record Row : Type 0 where
  pub parent_schema : Text
  pub parent_table : Text
  pub referenced_schema : Text
  pub referenced_table : Text
  pub fk_name : Text

pub record Edge : Type 0 where
  pub source : Text
  pub target : Text
  pub fk_name : Text

abbrev pub edge_of : Row → Edge
edge_of row = record {
  source = row.parent_schema ++ b'.' ∷ row.parent_table;
  target = row.referenced_schema ++ b'.' ∷ row.referenced_table;
  fk_name = row.fk_name;
}

-- `nodes.add(node)`
abbrev pub added : Text → List Text → List Text
added node nodes = if elem node nodes then nodes else node ∷ nodes

unfoldable pub nodes_of : List Edge → List Text
unfolding elem
nodes_of [] = []
nodes_of (e ∷ edges) = added e.source (added e.target (nodes_of edges))

-- `adjacency.get(current, set())`
unfoldable pub neighbours : List Edge → Text → List Text
unfolding text_eq
neighbours [] current = []
neighbours (e ∷ edges) current =
    let rest = neighbours edges current in
    if text_eq e.source current then e.target ∷ rest else rest

abbrev pub either_of : Bool → Option Bool → Option Bool → Option Bool
either_of here none rest = none
either_of here (some below) none = none
either_of here (some below) (some rest) = some (here || below || rest)

-- The loop over the neighbours: whether one of them is the start, or leads there.
unfoldable pub scan : (Text → Option Bool) → Text → List Text → List Text → Option Bool
unfolding text_eq elem
scan visit start seen [] = some false
scan visit start seen (nxt ∷ rest) =
    either_of (text_eq nxt start) (if elem nxt seen then some false else visit nxt)
      (scan visit start seen rest)

-- `_dfs`: whether it adds the start to `cycle_hits`, and `none` where the fuel runs out.
unfoldable pub dfs : ℕ → List Edge → Text → Text → List Text → Option Bool
unfolding scan neighbours
dfs zero edges start current seen = none
dfs (suc fuel) edges start current seen =
    scan (λ nxt. dfs fuel edges start nxt (nxt ∷ seen)) start seen (neighbours edges current)

-- The tables that a search from themselves hits. The fuel is the number of nodes, since a search
-- goes deeper only into a node that it has not seen.
unfoldable pub cycle_hits : List Edge → List Text → ℕ → Option (List Text)
unfolding dfs
cycle_hits edges [] fuel = some []
cycle_hits edges (node ∷ nodes) fuel = elim (cycle_hits edges nodes fuel) [
  | none ↦ none
  | some hits ↦ elim (dfs fuel edges node node (node ∷ [])) [
    | none ↦ none
    | some hit ↦ some (if hit then node ∷ hits else hits)
  ]
]

pub record Graph : Type 0 where
  pub node_count : ℕ
  pub edge_count : ℕ
  pub circular_dependency_tables : List Text
  pub edges : List Edge

-- `build_fk_graph`
unfoldable pub build_fk_graph : List Row → Option Graph
unfolding nodes_of cycle_hits sorted
build_fk_graph rows =
    let edges = map edge_of rows in
    let nodes = nodes_of edges in
    Option.map
      (λ hits. record {
        node_count = length nodes;
        edge_count = length edges;
        circular_dependency_tables = sorted hits;
        edges = edges;
      })
      (cycle_hits edges nodes (length nodes))

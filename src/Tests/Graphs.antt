-- ===== src/Tests/Graphs.antt =====
-- tools/model_graph.py at three tables, two of which refer to each other.
use mcp_sql_server.Tools.Graph.Exact.{circular_exact}
use mcp_sql_server.Tools.Graph.Walks.{Walk}
use mcp_sql_server.Tools.Graph.{
  Graph, Row, build_fk_graph, cycle_hits, dfs, edge_of, neighbours, nodes_of, scan,
}
use mcp_sql_server.Security.Privilege.{insert_sorted, sorted, text_leb}
use mcp_sql_server.Common.{
  List, Text, [], codes, elem, map, refl, some, text_eq, true, ◌↔◌, ◌∷◌, ◌≡◌,
}
use mathlib.Core.Option

abbrev row : Text → Text → Row
row parent referenced = record {
  parent_schema = codes "dbo";
  parent_table = parent;
  referenced_schema = codes "dbo";
  referenced_table = referenced;
  fk_name = codes "fk";
}

abbrev rows : List Row
rows =
    row (codes "Order") (codes "Customer")
    ∷ row (codes "Customer") (codes "Address")
    ∷ row (codes "Address") (codes "Customer")
    ∷ []

circular_exact_example :
    (g : Graph) × (build_fk_graph rows ≡ some g)
    × ((t : Text)
        → (elem t g.circular_dependency_tables ≡ true)
          ↔ ((vs : List Text) × Walk (map edge_of rows) t vs t))
circular_exact_example = circular_exact rows

circular :
    Option.map (λ (g : Graph). g.circular_dependency_tables) (build_fk_graph rows)
    ≡ some (codes "dbo.Address" ∷ codes "dbo.Customer" ∷ [])
unfolding build_fk_graph nodes_of cycle_hits dfs scan neighbours sorted insert_sorted text_leb elem
    text_eq
circular = refl

-- ===== src/Tests/Persistence.antt =====
-- A small graph written twice to an empty database.
use ligp_v.Prelude.{ℕ, ◌≡◌, refl, true, some, [], ◌∷◌, string_eq}
use ligp_v.Dict.{get, put}
use ligp_v.Graph.Store.{list_nodes, list_edges}
use ligp_v.Database.GraphRepo.{
  Tables, node_row, edge_id, edge_row, upsert_nodes, upsert_edges, persist_graph_to_db,
}
use ligp_v.Database.GraphRepo.Again.{persist_graph_to_db_again}
use ligp_v.Tests.Graph.{linked}

abbrev blank : Tables ℕ
blank = record { nodes = []; edges = [] }

abbrev written : Tables ℕ
written = record {
  nodes =
      ("a", record { type = "topic"; name = "a"; weight = 4 })
      ∷ ("b", record { type = "topic"; name = "b"; weight = 2 })
      ∷ [];
  edges =
      (
        "a->b:causes",
        record { from_node = "a"; to_node = "b"; relation_type = "causes"; weight = 5 },
      )
      ∷ [];
}

first : persist_graph_to_db (λ t. true) (some "url") (linked 5) blank ≡ (written, true)
unfolding persist_graph_to_db upsert_nodes upsert_edges node_row edge_row edge_id list_nodes
    list_edges get put
first = refl

second : persist_graph_to_db (λ t. true) (some "url") (linked 5) written ≡ (written, true)
unfolding persist_graph_to_db upsert_nodes upsert_edges node_row edge_row edge_id list_nodes
    list_edges get put
second = refl

persist_graph_to_db_again_example :
    (get "a" written.nodes ≡ get "a" written.nodes)
    × (get "a" written.edges ≡ get "a" written.edges)
persist_graph_to_db_again_example =
    persist_graph_to_db_again (λ t. true) (some "url") (linked 5) blank written written "a" first
      second

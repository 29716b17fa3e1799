-- ===== src/Tests/Versions.antt =====
-- A snapshot and a rollback on a small graph.
use ligp_v.Prelude.{ℕ, ◌≡◌, refl, none, some, [], ◌∷◌, arith, String, string_eq}
use ligp_v.Dict.{get}
use ligp_v.Graph.Store.{Node, GraphStore, empty}
use ligp_v.Graph.Versioning.{GraphVersioning, create_snapshot, find, rollback}
use ligp_v.Graph.Versioning.Rollback.{edges_at, rollback-create_snapshot}

abbrev str : ℕ → String
str n = "1"

abbrev node : String → Node ℕ
node id = record {
  id = id;
  type = "topic";
  name = id;
  weight = 1;
  embedding = none;
  created_at = "t";
  attrs = [];
}

abbrev graph : GraphStore ℕ
graph = record {
  nodes = ("a", node "a") ∷ ("b", node "b") ∷ [];
  adj =
      ("a", record { from_node = "a"; to_node = "b"; relation_type = "causes"; weight = 5 } ∷ [])
      ∷ ("b", [])
      ∷ [];
  incoming = ("a", []) ∷ ("b", ("a", "b", "causes") ∷ []) ∷ [];
}

abbrev history : GraphVersioning ℕ
history = record { keep_versions = 2; snapshots = []; counter = 0 }

rollback-create_snapshot_example :
    (g : GraphStore ℕ) × (rollback empty
        (create_snapshot str "now" "t" graph "first" history).1
        (create_snapshot str "now" "t" graph "first" history).0
      ≡ some g)
    × (g.nodes ≡ graph.nodes)
    × (edges_at "a" g ≡ edges_at "a" graph)
unfolding get find
rollback-create_snapshot_example =
    rollback-create_snapshot str "now" "t" "first" graph empty history "a" (omega arith) refl
      ((refl, tt), refl, (tt, refl, tt))

-- ===== src/Tests/Graph.antt =====
-- A small graph, with whole-number weights.
use ligp_v.Prelude.{ℕ, ◌≡◌, refl, ◌&&◌, none, some, [], ◌∷◌, String, string_eq, if◌then◌else◌, ◌==◌}
use ligp_v.Dict.{get, put, set_default}
use ligp_v.Graph.Weights.{nat_weighing}
use ligp_v.Graph.Builders.{build_edge}
use ligp_v.Graph.Store.{
  Node, Edge, GraphStore, ok, add_node, add_edge, merge_node, strengthen, empty,
}
use ligp_v.Graph.Store.Edges.{is_edge, merge}
use ligp_v.Graph.Store.Upsert.{edge_weight, edge_weight-add_edge}
use ligp_v.Graph.Store.Valid.{IsWell, empty-IsWell, add_node-IsWell, add_edge-IsWell}

program : Unit {0}
unfolding add_node add_edge merge_node strengthen get put set_default
program = tt

abbrev pub node : String → ℕ → Node ℕ
node id weight = record {
  id = id;
  type = "topic";
  name = id;
  weight = weight;
  embedding = none;
  created_at = "t";
  attrs = [];
}

abbrev pub edge : String → String → ℕ → Edge ℕ
edge u v weight = record { from_node = u; to_node = v; relation_type = "causes"; weight = weight }

abbrev pub one : GraphStore ℕ
one = record { nodes = ("a", node "a" 4) ∷ []; adj = ("a", []) ∷ []; incoming = ("a", []) ∷ [] }

abbrev pub two : GraphStore ℕ
two = record {
  nodes = ("a", node "a" 4) ∷ ("b", node "b" 2) ∷ [];
  adj = ("a", []) ∷ ("b", []) ∷ [];
  incoming = ("a", []) ∷ ("b", []) ∷ [];
}

abbrev pub linked : ℕ → GraphStore ℕ
linked weight = record two {
  adj = ("a", edge "a" "b" weight ∷ []) ∷ ("b", []) ∷ [];
  incoming = ("a", []) ∷ ("b", ("a", "b", "causes") ∷ []) ∷ [];
}

first_node : add_node (node "a" 4) empty ≡ ok one
unfolding program
first_node = refl

second_node : add_node (node "b" 2) one ≡ ok two
unfolding program
second_node = refl

first_edge : add_edge (edge "a" "b" 5) two ≡ ok (linked 5)
unfolding program
first_edge = refl

stronger_edge : add_edge (edge "a" "b" 8) (linked 5) ≡ ok (linked 8)
unfolding program
stronger_edge = refl

other_edge : add_edge (edge "a" "b" 8) two ≡ ok (linked 8)
unfolding program
other_edge = refl

weaker_edge : add_edge (edge "a" "b" 5) (linked 8) ≡ ok (linked 8)
unfolding program
weaker_edge = refl

pub two-IsWell : IsWell two
two-IsWell =
    add_node-IsWell (node "b" 2) one two second_node
      (add_node-IsWell (node "a" 4) empty one first_node empty-IsWell)

add_edge-IsWell_example : IsWell (linked 5)
add_edge-IsWell_example = add_edge-IsWell (edge "a" "b" 5) two (linked 5) first_edge two-IsWell

pub linked-IsWell : IsWell (linked 5)
linked-IsWell = add_edge-IsWell (edge "a" "b" 5) two (linked 5) first_edge two-IsWell

edge_weight-add_edge_example : edge_weight "a" "b" "causes" (linked 8) ≡ (
    if ◌==◌ {K = String} "a" "a" && is_edge "b" "causes" (edge "a" "b" 8)
    then merge (edge_weight "a" "b" "causes" (linked 5)) 8
    else edge_weight "a" "b" "causes" (linked 5))
edge_weight-add_edge_example =
    edge_weight-add_edge (edge "a" "b" 8) (linked 5) (linked 8) "a" "b" "causes" stronger_edge

built : build_edge none "a" "b" "causes" (some 5) ≡ ok (edge "a" "b" 5)
unfolding build_edge
built = refl

-- ===== src/Tests/Queries.antt =====
-- Searches and propagation on a small graph, with whole-number weights.
use mathlib.Core.List.{Memᴰ}
use ligp_v.Prelude.{
  eq_iff, ℕ, ◌+◌, ◌*◌, ◌≡◌, ◌≤◌, refl, none, some, List, [], ◌∷◌, String, All, leb, arith,
  string_eq, ◌==◌, if◌then◌else◌,
}
use ligp_v.Dict.{Dict, get}
use ligp_v.Graph.Store.{get_node}
use ligp_v.Graph.Query.{Row, found, get_neighbors, out_edges, follows}
use ligp_v.Graph.Query.Walks.{Walk}
use ligp_v.Graph.Query.Neighbors.{get_neighbors_lem}
use ligp_v.Graph.Query.Complete.{get_neighbors_complete}
use ligp_v.Graph.Propagation as Propagation
use ligp_v.Graph.Propagation.{Scale, seed, propagate, edges_from}
use ligp_v.Graph.Propagation.Generations.{generations, arrived, rounds, propagate_lem}
use ligp_v.Tests.Graph.{node, edge, linked, linked-IsWell}

node_there : get_node "a" (linked 5) ≡ some (node "a" 4)
unfolding get_node get
node_there = refl

get_neighbors_lem_example :
    (rows : List (Row ℕ)) × (get_neighbors "a" none 2 (linked 5) ≡ found rows)
    × All (λ r. (r.hops ≤ 2) × Walk (linked 5) none "a" r.hops r.node_id) rows
get_neighbors_lem_example =
    get_neighbors_lem "a" none 2 (linked 5) (node "a" 4) linked-IsWell node_there

way : Walk (linked 5) none "a" 1 "b"
unfolding out_edges get follows
way = Walk.next Walk.here (edge "a" "b" 5, Memᴰ.head refl, refl, refl)

get_neighbors_complete_example :
    (rows : List (Row ℕ)) × (get_neighbors "a" none 2 (linked 5) ≡ found rows)
    × ((r : Row ℕ) × Memᴰ r rows × (r.node_id ≡ "b") × (r.hops ≤ 1))
get_neighbors_complete_example =
    get_neighbors_complete "a" none 2 (linked 5) (node "a" 4) 1 "b" linked-IsWell node_there way
      (omega arith) (λ e. absurd (ground (arith, (eq_iff "b" "a").1 e)))

instance abbrev whole : Scale ℕ
whole = record { zero_of = 0; one_of = 1; add = λ a b. a + b; mul = λ a b. a * b; at_most = leb }

enough : rounds 2 1 (linked 5) (seed "a" ∷ []) ≤ 5
unfolding edges_from get
enough = omega arith

propagate_lem_example :
    (scores : Dict String ℕ) × (propagate 5 1 (linked 5) "a" 2 ≡ Propagation.found scores)
    × (get "b" scores ≡ (
        if ◌==◌ {K = String} "a" "b"
        then none
        else arrived "b" none (generations 2 1 (linked 5) (seed "a" ∷ []))))
propagate_lem_example = propagate_lem 1 (linked 5) "a" 2 5 (node "a" 4) "b" node_there enough

-- ===== src/Api/Admin/Tallies.antt =====
-- The counts of the dashboard.
use ligp_v.Prelude.{
  ℕ, suc, ◌+◌, ◌≡◌, refl, ◌∙◌, ap, List, [], ◌∷◌, arith, if◌then◌else◌, String, string_eq,
  string_less, ◌==◌, eq_iff, length, or_default,
}
use ligp_v.Prelude.Sorting.{sum_of, sum-sort_by}
use ligp_v.Dict.{Dict, get, put}
use ligp_v.Api.Admin.{
  Db, GraphData, NodeRow, EdgeRow, graph_stats, graph_source, tally, sorted_items, types_of,
  relations_of,
}

-- What a tally has under a name, and in all.
abbrev pub share : String → String × ℕ → ℕ
share k p = if p.0 == k then p.1 else 0

abbrev pub amount : String × ℕ → ℕ
amount p = p.1

-- How often a name occurs.
abbrev pub times : String → List String → ℕ
times k [] = 0
times k (x ∷ xs) = let rest = times k xs in if x == k then suc rest else rest

put-share :
    (k j : String) (d : Dict String ℕ)
    → sum_of (share j) (put k (or_default (get k d) 0 + 1) d)
      ≡ (if k == j then 1 else 0) + sum_of (share j) d
unfolding put get
put-share k j [] = ground arith
put-share k j ((i, n) ∷ d) = ground (arith, put-share k j d, eq_iff i k, eq_iff i j, eq_iff k j)

put-amount :
    (k : String) (d : Dict String ℕ)
    → sum_of amount (put k (or_default (get k d) 0 + 1) d) ≡ 1 + sum_of amount d
unfolding put get
put-amount k [] = omega arith
put-amount k ((i, n) ∷ d) = ground (arith, put-amount k d)

tally-share :
    (j : String) (ks : List String) (d : Dict String ℕ)
    → sum_of (share j) (tally ks d) ≡ times j ks + sum_of (share j) d
unfolding tally
tally-share j [] d = omega arith
tally-share j (k ∷ ks) d =
    ground (arith, tally-share j ks (put k (or_default (get k d) 0 + 1) d), put-share k j d)

tally-amount :
    (ks : List String) (d : Dict String ℕ)
    → sum_of amount (tally ks d) ≡ length ks + sum_of amount d
unfolding tally
tally-amount [] d = omega arith
tally-amount (k ∷ ks) d =
    omega (arith, tally-amount ks (put k (or_default (get k d) 0 + 1) d), put-amount k d)

length-types_of : {W : Type 0} (nodes : List (NodeRow W)) → length (types_of nodes) ≡ length nodes
length-types_of [] = refl
length-types_of (n ∷ nodes) = ap suc (length-types_of nodes)

length-relations_of :
    {W : Type 0} (edges : List (EdgeRow W)) → length (relations_of edges) ≡ length edges
length-relations_of [] = refl
length-relations_of (e ∷ edges) = ap suc (length-relations_of edges)

share-sorted_items :
    (j : String) (ks : List String) → sum_of (share j) (sorted_items (tally ks [])) ≡ times j ks
unfolding sorted_items
share-sorted_items j ks =
    omega
      (arith, sum-sort_by (λ a b. string_less a.0 b.0) (share j) (tally ks []), tally-share j ks [])

amount-sorted_items : (ks : List String) → sum_of amount (sorted_items (tally ks [])) ≡ length ks
unfolding sorted_items
amount-sorted_items ks =
    omega (arith, sum-sort_by (λ a b. string_less a.0 b.0) amount (tally ks []), tally-amount ks [])

-- The counts of the dashboard are those of the graph it shows: each type and each relation is
-- counted as often as it occurs, and the counts add up to the numbers of nodes and of edges.
graph_stats_lem :
    {W : Type 0} (db : Db (GraphData W)) (seed : GraphData W)
    → ((t : String)
        → sum_of (share t) (graph_stats db seed).nodes_by_type
          ≡ times t (types_of (graph_source db seed).nodes))
      × ((r : String)
          → sum_of (share r) (graph_stats db seed).edges_by_relation
            ≡ times r (relations_of (graph_source db seed).edges))
      × (sum_of amount (graph_stats db seed).nodes_by_type ≡ (graph_stats db seed).node_count)
      × (sum_of amount (graph_stats db seed).edges_by_relation ≡ (graph_stats db seed).edge_count)
unfolding graph_stats
graph_stats_lem db seed = (
  λ t. share-sorted_items t (types_of (graph_source db seed).nodes),
  λ r. share-sorted_items r (relations_of (graph_source db seed).edges),
  amount-sorted_items (types_of (graph_source db seed).nodes)
      ∙ length-types_of (graph_source db seed).nodes,
  amount-sorted_items (relations_of (graph_source db seed).edges)
      ∙ length-relations_of (graph_source db seed).edges,
)

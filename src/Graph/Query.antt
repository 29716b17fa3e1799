-- ===== src/Graph/Query.antt =====
-- `GraphQuery` of graph/query.py over the in-memory store, whose `_adj` it reads. The rounds of the
-- `while` loop are counted by fuel; `num_nodes + 1` rounds are given, and `out_of_fuel` says that
-- they were too few. Weights and scores are only compared.
pub mod Walks
pub mod Offers
pub mod Levels
pub mod Rounds
pub mod Neighbors
pub mod Complete
use ligp_v.Prelude.{
  ℕ, zero, suc, ◌+◌, Bool, true, false, not, ◌||◌, ◌&&◌, Option, none, some, List, [], ◌∷◌, ◌++◌,
  arith, if◌then◌else◌, String, leb, or_default, contains, take, is_some, string_eq, ◌==◌,
}
use ligp_v.Dict.{Dict, get, put, member, values}
use ligp_v.Graph.Weights.{Weighing}
use ligp_v.Graph.Store.{Node, Edge, GraphStore, get_node, num_nodes}

-- A row of `get_neighbors`.
pub record Row (W : Type 0) : Type 0 where
  pub node_id : String
  pub relation : String
  pub weight : W
  pub hops : ℕ

-- The variables of the loop.
pub record Search (W : Type 0) : Type 0 where
  pub results : Dict String (Row W)
  pub frontier : List (String × ℕ)
  pub visited : List String

pub data Outcome {ℓ} (A : Type ℓ) : Type ℓ where
  found : A → Outcome A
  key_error out_of_fuel : Outcome A

module _ {W : Type 0} where
  -- `_out_edges`
  unfoldable pub out_edges : String → GraphStore W → List (Edge W)
  out_edges node_id g = or_default (get node_id g.adj) []

  -- `not (relation is not None and e.relation_type != relation)`
  unfoldable pub follows : Option String → Edge W → Bool
  follows none e = true
  follows (some relation) e = e.relation_type == relation

  -- The body of the inner loop.
  unfoldable pub offer : Option String → ℕ → Edge W → Search W → Search W
  offer relation depth e s =
      if not (follows relation e)
      then s
      else let s' = if member e.to_node s.results then s else record s {
        results =
            put e.to_node
              (record {
                node_id = e.to_node;
                relation = e.relation_type;
                weight = e.weight;
                hops = depth + 1;
              })
              s.results;
      } in
        if contains s'.visited e.to_node then s' else record s' {
          visited = s'.visited ++ e.to_node ∷ [];
          frontier = s'.frontier ++ (e.to_node, depth + 1) ∷ [];
        }

  unfoldable pub scan : Option String → ℕ → List (Edge W) → Search W → Search W
  scan relation depth [] s = s
  scan relation depth (e ∷ es) s = scan relation depth es (offer relation depth e s)

  -- A round, after `current` has left the frontier.
  unfoldable pub round : Option String → ℕ → GraphStore W → String → ℕ → Search W → Search W
  round relation max_hops g current depth s =
      if leb max_hops depth then s else scan relation depth (out_edges current g) s

  unfoldable pub loop : ℕ → Option String → ℕ → GraphStore W → Search W → Outcome (Search W)
  loop zero relation max_hops g s = elim s.frontier [ [] ↦ found s | _ ∷ _ ↦ out_of_fuel ]
  loop (suc fuel) relation max_hops g s = elim s.frontier [
    | [] ↦ found s
    | p ∷ rest ↦
        loop fuel relation max_hops g
          (round relation max_hops g p.0 p.1 (record s { frontier = rest }))
  ]

  abbrev pub start : String → Search W
  start node_id = record { results = []; frontier = (node_id, 0) ∷ []; visited = node_id ∷ [] }

  unfoldable pub get_neighbors : String → Option String → ℕ → GraphStore W → Outcome (List (Row W))
  get_neighbors node_id relation max_hops g = elim (get_node node_id g) [
    | none ↦ key_error
    | some _ ↦ elim (loop (num_nodes g + 1) relation max_hops g (start node_id)) [
      | found s ↦ found (values s.results)
      | key_error ↦ key_error
      | out_of_fuel ↦ out_of_fuel
    ]
  ]

  -- The nodes of `subgraph`, for the ids that are there, and the edges between them. `ids` is the set
  -- of the ids, in the order in which the set is walked.
  unfoldable pub present : List String → GraphStore W → List (Node W)
  present [] g = []
  present (nid ∷ node_ids) g =
      let rest = present node_ids g in elim (get_node nid g) [ none ↦ rest | some n ↦ n ∷ rest ]

  unfoldable pub inside : List String → List (Edge W) → List (Edge W)
  inside ids [] = []
  inside ids (e ∷ es) =
      let rest = inside ids es in if contains ids e.to_node then e ∷ rest else rest

  unfoldable pub edges_within : List String → List String → GraphStore W → List (Edge W)
  edges_within ids [] g = []
  edges_within ids (nid ∷ nids) g = inside ids (out_edges nid g) ++ edges_within ids nids g

  unfoldable pub subgraph :
      (List String → List String)
      → List String
      → Bool
      → GraphStore W
      → List (Node W) × List (Edge W)
  subgraph set_of node_ids include_edges g =
      let ids = set_of node_ids in
      (present node_ids g, if include_edges then edges_within ids ids g else [])

  -- A row of `top_k_by_score`.
  abbrev pub score_of : Node W → W
  score_of n = or_default (get "score" n.attrs) n.weight

  module _ ⦃o : Weighing W⦄ where
    -- The rows at or above `min_score`, with their scores.
    unfoldable pub scored : W → List (Node W) → List (Node W)
    scored min_score [] = []
    scored min_score (n ∷ nodes) =
        let rest = scored min_score nodes in
        if o.less (score_of n) min_score then rest else n ∷ rest

    -- `scored.sort(key=..., reverse=True)`: an element after those that are at least as great.
    unfoldable pub insert_scored : Node W → List (Node W) → List (Node W)
    insert_scored x [] = x ∷ []
    insert_scored x (y ∷ ys) =
        let rest = insert_scored x ys in
        if o.less (score_of y) (score_of x) then x ∷ y ∷ ys else y ∷ rest

    unfoldable pub sort_scored : List (Node W) → List (Node W) → List (Node W)
    sort_scored sorted [] = sorted
    sort_scored sorted (x ∷ xs) = sort_scored (insert_scored x sorted) xs

    unfoldable pub top_k_by_score : ℕ → W → GraphStore W → List (Node W)
    top_k_by_score k min_score g = take k (sort_scored [] (scored min_score (values g.nodes)))

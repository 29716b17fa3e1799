-- ===== src/Graph/Propagation.antt =====
-- `GraphPropagation` of graph/propagation.py over the in-memory store. The floats are a parameter
-- with the operations that the code applies to them; no law of theirs is assumed. The rounds of the
-- `while` loop are counted by fuel.
pub mod Generations
use ligp_v.Prelude.{
  ℕ, zero, suc, ◌+◌, Bool, Option, none, some, List, [], ◌∷◌, ◌++◌, if◌then◌else◌, String, leb,
  or_default, map, string_eq,
}
use ligp_v.Dict.{Dict, get, put, remove}
use ligp_v.Graph.Store.{Edge, GraphStore, get_node, get_neighbors}

pub record Scale (W : Type 0) : Type 0 where
  pub zero_of : W
  pub one_of : W
  pub add : W → W → W
  pub mul : W → W → W
  pub at_most : W → W → Bool

-- `0.0 < hop_decay <= 1.0`, and the object made.
unfoldable pub init : {W : Type 0} ⦃o : Scale W⦄ → W → Option W
init ⦃o⦄ hop_decay =
    if o.at_most hop_decay o.zero_of
    then none
    else if o.at_most hop_decay o.one_of
    then some hop_decay
    else none

-- An entry of the frontier.
pub record Entry (W : Type 0) : Type 0 where
  pub node : String
  pub influence : W
  pub depth : ℕ

pub data Outcome (W : Type 0) : Type 0 where
  found : Dict String W → Outcome W
  key_error out_of_fuel : Outcome W

module _ {W : Type 0} ⦃o : Scale W⦄ where
  abbrev pub weighted : List (Edge W) → List (String × W)
  weighted [] = []
  weighted (e ∷ es) = (e.to_node, e.weight) ∷ weighted es

  unfoldable pub edges_from : String → GraphStore W → List (String × W)
  edges_from node_id g = elim (get node_id g.adj) [
    | some es ↦ weighted es
    | none ↦ map (λ nid. (nid, o.one_of)) (get_neighbors node_id g)
  ]

  -- `scores[neighbor] = scores.get(neighbor, 0.0) + contributed`
  abbrev pub credit : String → W → Dict String W → Dict String W
  credit neighbor contributed scores =
      put neighbor (o.add (or_default (get neighbor scores) o.zero_of) contributed) scores

  -- The inner loop.
  unfoldable pub spread :
      W
      → W
      → ℕ
      → List (String × W)
      → Dict String W × List (Entry W)
      → Dict String W × List (Entry W)
  spread hop_decay influence depth [] s = s
  spread hop_decay influence depth ((neighbor, weight) ∷ pairs) (scores, frontier) =
      let contributed = o.mul (o.mul influence weight) hop_decay in
      if o.at_most contributed o.zero_of
      then spread hop_decay influence depth pairs (scores, frontier)
      else spread hop_decay influence depth pairs (
        credit neighbor contributed scores,
        frontier ++ record { node = neighbor; influence = contributed; depth = depth + 1 } ∷ [],
      )

  -- A round, after `current` has left the frontier.
  unfoldable pub round :
      W
      → ℕ
      → GraphStore W
      → Entry W
      → Dict String W × List (Entry W)
      → Dict String W × List (Entry W)
  round hop_decay hops g current s =
      if leb hops current.depth
      then s
      else spread hop_decay current.influence current.depth (edges_from current.node g) s

  unfoldable pub loop : ℕ → W → ℕ → GraphStore W → Dict String W × List (Entry W) → Outcome W
  loop zero hop_decay hops g s = elim s.1 [ [] ↦ found s.0 | _ ∷ _ ↦ out_of_fuel ]
  loop (suc fuel) hop_decay hops g s = elim s.1 [
    | [] ↦ found s.0
    | current ∷ rest ↦ loop fuel hop_decay hops g (round hop_decay hops g current (s.0, rest))
  ]

  abbrev pub seed : String → Entry W
  seed node_id = record { node = node_id; influence = o.one_of; depth = 0 }

  unfoldable pub propagate : ℕ → W → GraphStore W → String → ℕ → Outcome W
  propagate fuel hop_decay g node_id hops = elim (get_node node_id g) [
    | none ↦ key_error
    | some _ ↦ elim (loop fuel hop_decay hops g ([], seed node_id ∷ [])) [
      | found scores ↦ found (remove node_id scores)
      | key_error ↦ key_error
      | out_of_fuel ↦ out_of_fuel
    ]
  ]

  -- The results in the order of the seeds, with two hops each; `none` if a seed raises.
  unfoldable pub batch_propagate :
      ℕ → W → GraphStore W → List String → Dict String (Outcome W) → Dict String (Outcome W)
  batch_propagate fuel hop_decay g [] results = results
  batch_propagate fuel hop_decay g (nid ∷ node_ids) results =
      batch_propagate fuel hop_decay g node_ids (put nid (propagate fuel hop_decay g nid 2) results)

-- ===== src/Graph/Shortest.antt =====
-- `shortest_path` of graph/query.py: the search over `1 / weight`. The floats of the costs, from 0 to
-- infinity, are an interface of what the code applies to them; `heapq` is a list from which the
-- least tuple is taken. The rounds of the loop are counted by fuel: one for each edge and one more.
pub mod Routes
pub mod Least
pub mod Sound
pub mod Rounds
pub mod Effort
pub mod Answers
use ligp_v.Prelude.{
  ℕ, zero, suc, ◌+◌, ◌≡◌, Bool, true, false, ◌||◌, Option, none, some, List, [], ◌∷◌, ◌++◌, arith,
  if◌then◌else◌, String, or_default, string_less, string_eq, ◌==◌,
}
use ligp_v.Dict.{Dict, get, put}
use ligp_v.Graph.Weights.{Weighing}
use ligp_v.Graph.Store.{Edge, GraphStore, get_node, num_edges}
use ligp_v.Graph.Query.{Outcome, found, key_error, out_of_fuel, out_edges}

-- The costs with `+`. The laws hold of floats that are not negative and not NaN, whose sums are
-- rounded.
pub record Costs (C : Type 0) : Type 0 where
  pub cost_order : Weighing C
  pub nought : C
  pub inf : C
  pub plus : C → C → C
  pub plus_mono :
      (a b s : C) → cost_order.less b a ≡ false → cost_order.less (plus b s) (plus a s) ≡ false
  pub plus_grows : (a s : C) → cost_order.less (plus a s) a ≡ false
  pub nought_least : (a : C) → cost_order.less a nought ≡ false
  pub inf_greatest : (a : C) → cost_order.less inf a ≡ false
  pub nought_finite : cost_order.less nought inf ≡ true

-- `> 0` and `1.0 /` on the weights
pub record Inverse (W C : Type 0) : Type 0 where
  pub positive : W → Bool
  pub inverse : W → C

-- An entry `(cost, node, path)` of the heap.
pub record Entry (C : Type 0) : Type 0 where
  pub cost : C
  pub node : String
  pub path : List String

-- The variables of the loop.
pub record Search (C : Type 0) : Type 0 where
  pub heap : List (Entry C)
  pub best : Dict String C

-- `<` of two lists of strings
unfoldable pub path_less : List String → List String → Bool
path_less xs [] = false
path_less [] (y ∷ ys) = true
path_less (x ∷ xs) (y ∷ ys) = let rest = path_less xs ys in if x == y then rest else string_less x y

module _ {C : Type 0} ⦃k : Costs C⦄ where
  abbrev pub below : C → C → Bool
  below a b = k.cost_order.less a b

  -- `<` of two entries
  unfoldable pub entry_less : Entry C → Entry C → Bool
  entry_less x y =
      if below x.cost y.cost
      then true
      else if below y.cost x.cost
      then false
      else if x.node == y.node
      then path_less x.path y.path
      else string_less x.node y.node

  -- `heapq.heappop`: the least entry, and the others.
  unfoldable pub heappop : Entry C → List (Entry C) → Entry C × List (Entry C)
  heappop x [] = (x, [])
  heappop x (y ∷ ys) =
      let r = heappop y ys in if entry_less r.0 x then (r.0, x ∷ r.1) else (x, r.0 ∷ r.1)

  -- `best.get(v, float("inf"))`
  abbrev pub best_of : String → Search C → C
  best_of v s = or_default (get v s.best) k.inf

  abbrev pub start : String → Search C
  start src = record {
    heap = record { cost = k.nought; node = src; path = src ∷ [] } ∷ [];
    best = (src, k.nought) ∷ [];
  }

module _ {W C : Type 0} ⦃k : Costs C⦄ ⦃w : Inverse W C⦄ where
  -- `1.0 / e.weight if e.weight > 0 else float("inf")`
  unfoldable pub step : Edge W → C
  step e = if w.positive e.weight then w.inverse e.weight else k.inf

  -- The body of the inner loop.
  unfoldable pub relax : C → List String → Edge W → Search C → Search C
  relax cost path e s =
      let new_cost = k.plus cost (step e) in
      if below new_cost (best_of e.to_node s)
      then record {
        heap = record { cost = new_cost; node = e.to_node; path = path ++ e.to_node ∷ [] } ∷ s.heap;
        best = put e.to_node new_cost s.best;
      }
      else s

  unfoldable pub relax_all : C → List String → List (Edge W) → Search C → Search C
  relax_all cost path [] s = s
  relax_all cost path (e ∷ es) s = relax_all cost path es (relax cost path e s)

  -- What is left of the search after a node other than the goal has left the heap.
  unfoldable pub expand : GraphStore W → Entry C → List (Entry C) → Search C → Search C
  expand g x rest s = relax_all x.cost x.path (out_edges x.node g) (record s { heap = rest })

  unfoldable pub loop : ℕ → String → GraphStore W → Search C → Outcome (List String)
  loop zero dst g s = elim s.heap [ [] ↦ found [] | _ ∷ _ ↦ out_of_fuel ]
  loop (suc fuel) dst g s = elim s.heap [
    | [] ↦ found []
    | x ∷ xs ↦
        let p = heappop x xs in
        let rest = loop fuel dst g (expand g p.0 p.1 s) in
        if p.0.node == dst then found p.0.path else rest
  ]

module _ {W : Type 0} (C : Type 0) ⦃k : Costs C⦄ ⦃w : Inverse W C⦄ where
  unfoldable pub shortest_path : String → String → GraphStore W → Outcome (List String)
  shortest_path src dst g = elim (get_node src g) [
    | none ↦ key_error
    | some _ ↦ elim (get_node dst g) [
      | none ↦ key_error
      | some _ ↦
          if src == dst then found (src ∷ []) else loop (num_edges g + 1) dst g (start {C = C} src)
    ]
  ]

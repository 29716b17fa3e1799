-- ===== src/Graph/Shortest/Routes.antt =====
-- The order of the costs, and the routes from a node with what they cost.
use mathlib.Core.List.{Memᴰ}
use ligp_v.Prelude.{◌≡◌, true, false, List, [], ◌∷◌, ◌++◌, arith, String}
use ligp_v.Graph.Store.{Edge, GraphStore}
use ligp_v.Graph.Query.{out_edges}
use ligp_v.Graph.Shortest.{Costs, Inverse, below, step}

module _ {C : Type 0} ⦃k : Costs C⦄ where
  -- `a <= b`
  abbrev pub NoMore : C → C → Type 0
  NoMore a b = below b a ≡ false

  pub NoMore-refl : (a : C) → NoMore a a
  NoMore-refl a = k.cost_order.less_irrefl a

  pub less-NoMore : (a b : C) → below a b ≡ true → NoMore a b
  less-NoMore a b h = ground (arith, k.cost_order.less_trans a b a, k.cost_order.less_irrefl a)

  pub NoMore-trans : (a b c : C) → NoMore a b → NoMore b c → NoMore a c
  NoMore-trans a b c p q = ground (
    arith,
    k.cost_order.less_total a b,
    k.cost_order.less_total b c,
    k.cost_order.less_trans c a b,
    k.cost_order.less_trans b c a,
  )

  pub NoMore-less : (a b c : C) → NoMore a b → below b c ≡ true → below a c ≡ true
  NoMore-less a b c p q = ground (arith, k.cost_order.less_total a b, k.cost_order.less_trans a b c)

  pub below_trans : (a b c : C) → below a b ≡ true → NoMore b c → below a c ≡ true
  below_trans a b c p q = ground (arith, k.cost_order.less_total b c, k.cost_order.less_trans a b c)

module _ {W C : Type 0} ⦃k : Costs C⦄ ⦃w : Inverse W C⦄ where
  -- A route along edges of the graph, by its end, its cost and its nodes.
  pub data Route (g : GraphStore W) (src : String) : String → C → List String → Type 0 where
    at_start : Route g src src k.nought (src ∷ [])
    along :
        {u : String} {c : C} {path : List String} (e : Edge W)
        → Route g src u c path
        → Memᴰ e (out_edges u g)
        → Route g src e.to_node (k.plus c (step e)) (path ++ e.to_node ∷ [])

-- ===== src/Graph/Store/Upsert.antt =====
-- What `add_node` and `add_edge` write, read back by key; the order of the calls does not matter.
use ligp_v.Prelude.{
  ◌≡◌, true, ◌&&◌, Option, none, some, List, [], arith, if◌then◌else◌, String, ◌==◌, string_eq,
  contains, eq_iff, ◌⊎◌, sym, ◌∙◌, ap,
}
use ligp_v.Dict.{get, put, get-put, member, set_default}
use ligp_v.Graph.Weights.{Weighing, max_of, max_comm, max_assoc, max_idem}
use ligp_v.Graph.Store.{Node, Edge, GraphStore, ok, relation_types, add_node, merge_node, add_edge}
use ligp_v.Graph.Store.Edges.{is_edge, weight_of, merge, insert_edge, weight_of-insert_edge}

module _ {W : Type 0} ⦃o : Weighing W⦄ where
  abbrev pub weight_in : String → String → Option (List (Edge W)) → Option W
  weight_in v rel none = none
  weight_in v rel (some es) = weight_of v rel es

  -- The weight of the edge from `u` to `v` with a relation, if there is one.
  abbrev pub edge_weight : String → String → String → GraphStore W → Option W
  edge_weight u v rel g = weight_in v rel (get u g.adj)

  -- What a successful `add_edge` has written.
  pub add_edge_written :
      (edge : Edge W) (g g' : GraphStore W)
      → add_edge edge g ≡ ok g'
      → (es : List (Edge W)) × (get edge.from_node g.adj ≡ some es)
        × (g'.adj ≡ put edge.from_node (insert_edge edge es) g.adj)
        × (g'.nodes ≡ g.nodes)
        × (contains relation_types edge.relation_type ≡ true)
        × (member edge.to_node g.nodes ≡ true)
  unfolding add_edge insert_edge
  add_edge_written edge g g' h = ground arith

  -- After a successful `add_edge` the edge between those ends with that relation has the greater of
  -- its old weight and the new one, or the new one if it was not there; every other edge weighs what
  -- it weighed.
  pub edge_weight-add_edge :
      (edge : Edge W) (g g' : GraphStore W) (u v rel : String)
      → add_edge edge g ≡ ok g'
      → edge_weight u v rel g' ≡ (
          if edge.from_node == u && is_edge v rel edge
          then merge (edge_weight u v rel g) edge.weight
          else edge_weight u v rel g)
  edge_weight-add_edge edge g g' u v rel h =
      let (es, here, written, same, valid, there) = add_edge_written edge g g' h in
      ground (
        arith,
        ap (get u) written,
        get-put edge.from_node u (insert_edge edge es) g.adj,
        here,
        eq_iff edge.from_node u,
        weight_of-insert_edge v rel edge es,
      )

  twice : (a b : W) (m : Option W) → merge (merge m a) b ≡ merge (merge m b) a
  twice a b none = ap some (max_comm a b)
  twice a b (some w) =
      ap some (max_assoc w a b ∙ ap (max_of w) (max_comm a b) ∙ sym (max_assoc w b a))

  again : (a : W) (m : Option W) → merge (merge m a) a ≡ merge m a
  again a none = ap some (max_idem a)
  again a (some w) = ap some (max_assoc w a a ∙ ap (max_of w) (max_idem a))

  -- Two edges may be added in either order: whenever both orders succeed, every edge has the same
  -- weight afterwards.
  pub add_edge_comm :
      (a b : Edge W) (g ga gab gb gba : GraphStore W) (u v rel : String)
      → add_edge a g ≡ ok ga
      → add_edge b ga ≡ ok gab
      → add_edge b g ≡ ok gb
      → add_edge a gb ≡ ok gba
      → edge_weight u v rel gab ≡ edge_weight u v rel gba
  add_edge_comm a b g ga gab gb gba u v rel p q r t = ground (
    arith,
    edge_weight-add_edge a g ga u v rel p,
    edge_weight-add_edge b ga gab u v rel q,
    edge_weight-add_edge b g gb u v rel r,
    edge_weight-add_edge a gb gba u v rel t,
    twice a.weight b.weight (edge_weight u v rel g),
  )

  -- Adding the edge that was just added changes no weight.
  pub add_edge_idem :
      (a : Edge W) (g ga gaa : GraphStore W) (u v rel : String)
      → add_edge a g ≡ ok ga
      → add_edge a ga ≡ ok gaa
      → edge_weight u v rel gaa ≡ edge_weight u v rel ga
  add_edge_idem a g ga gaa u v rel p q = ground (
    arith,
    edge_weight-add_edge a g ga u v rel p,
    edge_weight-add_edge a ga gaa u v rel q,
    again a.weight (edge_weight u v rel g),
  )

  -- The node that an upsert leaves.
  abbrev pub upserted : Option (Node W) → Node W → Node W
  upserted none node = node
  upserted (some existing) node = merge_node existing node

  pub add_node_nodes :
      (node : Node W) (g g' : GraphStore W)
      → add_node node g ≡ ok g'
      → g'.nodes ≡ put node.id (upserted (get node.id g.nodes) node) g.nodes
  unfolding add_node
  add_node_nodes node g g' h = ground arith

  pub add_node_adj :
      (node : Node W) (g g' : GraphStore W) (u : String)
      → add_node node g ≡ ok g'
      → (get u g'.adj ≡ get u g.adj) ⊎ ((get u g.adj ≡ none) × (get u g'.adj ≡ some []))
  unfolding add_node set_default
  add_node_adj node g g' u h = ground (arith, get-put node.id u [] g.adj, eq_iff node.id u)

  -- The upsert of a node: on success the node under its id has the greater of the two weights, keeps
  -- its name and type, keeps an embedding that it has and takes the new one otherwise; a node that
  -- was not there is stored as it is; every other node is untouched, and so is every edge.
  pub get-add_node :
      (node : Node W) (g g' : GraphStore W) (j u v rel : String)
      → add_node node g ≡ ok g'
      → (get j g'.nodes
          ≡ (if node.id == j then some (upserted (get j g.nodes) node) else get j g.nodes))
        × (edge_weight u v rel g' ≡ edge_weight u v rel g)
  get-add_node node g g' j u v rel h = (
    ground (
      arith,
      ap (get j) (add_node_nodes node g g' h),
      get-put node.id j (upserted (get node.id g.nodes) node) g.nodes,
      eq_iff node.id j,
    ),
    unfold weight_of in ground (arith, add_node_adj node g g' u h),
  )

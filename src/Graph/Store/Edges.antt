-- ===== src/Graph/Store/Edges.antt =====
-- One list of outgoing edges: what an insertion does to the weights, and that it keeps one edge for
-- each end and relation.
use ligp_v.Prelude.{
  ◌+◌, ◌≡◌, refl, Bool, ◌&&◌, Option, none, some, List, [], ◌∷◌, ◌++◌, arith, if◌then◌else◌, String,
  length, ◌==◌, string_eq, is_some, eq_iff, All, inl, inr, Bool-cases,
}
use ligp_v.Graph.Weights.{Weighing, max_of}
use ligp_v.Graph.Store.{Edge, same_edge, strengthen}

abbrev pub is_edge : {W : Type 0} → String → String → Edge W → Bool
is_edge to rel e = e.to_node == to && e.relation_type == rel

-- The weight of the first edge with this end and relation.
unfoldable pub weight_of : {W : Type 0} → String → String → List (Edge W) → Option W
weight_of to rel [] = none
weight_of to rel (e ∷ es) = if is_edge to rel e then some e.weight else weight_of to rel es

-- No two edges have the same end and relation.
abbrev pub Distinct : {W : Type 0} → List (Edge W) → Type 0
Distinct [] = Unit
Distinct (e ∷ es) = (weight_of e.to_node e.relation_type es ≡ none) × Distinct es

module _ {W : Type 0} ⦃o : Weighing W⦄ where
  abbrev pub merge : Option W → W → Option W
  merge none w = some w
  merge (some a) w = some (max_of a w)

  -- What `add_edge` makes of a list of outgoing edges.
  unfoldable pub insert_edge : Edge W → List (Edge W) → List (Edge W)
  insert_edge edge es = elim (strengthen edge es) [ none ↦ es ++ edge ∷ [] | some es' ↦ es' ]

  insert_edge-cons :
      (edge e : Edge W) (es : List (Edge W))
      → insert_edge edge (e ∷ es) ≡ (
          if same_edge e edge
          then record e { weight = max_of e.weight edge.weight } ∷ es
          else e ∷ insert_edge edge es)
  unfolding insert_edge strengthen
  insert_edge-cons edge e es = ground arith

  pub weight_of-insert_edge :
      (to rel : String) (edge : Edge W) (es : List (Edge W))
      → weight_of to rel (insert_edge edge es) ≡ (
          if is_edge to rel edge
          then merge (weight_of to rel es) edge.weight
          else weight_of to rel es)
  unfolding weight_of
  weight_of-insert_edge to rel edge [] = unfold insert_edge strengthen in ground arith
  weight_of-insert_edge to rel edge (e ∷ es) = rw (insert_edge-cons edge e es) (
      ground (
        arith,
        weight_of-insert_edge to rel edge es,
        eq_iff e.to_node edge.to_node,
        eq_iff e.relation_type edge.relation_type,
        eq_iff e.to_node to,
        eq_iff e.relation_type rel,
        eq_iff edge.to_node to,
        eq_iff edge.relation_type rel,
      ))

  is_edge_flip : (a b : Edge W) → is_edge a.to_node a.relation_type b ≡ same_edge a b
  is_edge_flip a b = ground (
    arith,
    eq_iff a.to_node b.to_node,
    eq_iff a.relation_type b.relation_type,
    eq_iff b.to_node a.to_node,
    eq_iff b.relation_type a.relation_type,
  )

  pub Distinct-insert_edge :
      (edge : Edge W) (es : List (Edge W)) → Distinct es → Distinct (insert_edge edge es)
  Distinct-insert_edge edge [] h = unfold insert_edge strengthen weight_of in (refl, tt)
  Distinct-insert_edge edge (e ∷ es) h =
      rw (insert_edge-cons edge e es) (elim (Bool-cases (same_edge e edge)) [
        | inl p ↦ rw p h
        | inr p ↦ rw p (
          rw (weight_of-insert_edge e.to_node e.relation_type edge es, is_edge_flip e edge, p) h.0,
          Distinct-insert_edge edge es h.1,
        )
      ])

  -- An insertion adds an edge exactly when there was none with its end and relation.
  pub length-insert_edge :
      (edge : Edge W) (es : List (Edge W))
      → length (insert_edge edge es)
        ≡ length es + (if is_some (weight_of edge.to_node edge.relation_type es) then 0 else 1)
  unfolding weight_of
  length-insert_edge edge [] = unfold insert_edge strengthen in omega arith
  length-insert_edge edge (e ∷ es) =
      rw (insert_edge-cons edge e es) (ground (arith, length-insert_edge edge es))

  -- A property of edges that does not look at their weights, and that the new edge has too.
  pub All-insert_edge :
      (P : String → String → String → Type 0) (edge : Edge W) (es : List (Edge W))
      → P edge.from_node edge.to_node edge.relation_type
      → All (λ e. P e.from_node e.to_node e.relation_type) es
      → All (λ e. P e.from_node e.to_node e.relation_type) (insert_edge edge es)
  All-insert_edge P edge [] p h = unfold insert_edge strengthen in (p, tt)
  All-insert_edge P edge (e ∷ es) p h =
      rw (insert_edge-cons edge e es) (elim (Bool-cases (same_edge e edge)) [
        | inl q ↦ rw q h
        | inr q ↦ rw q (h.0, All-insert_edge P edge es p h.1)
      ])

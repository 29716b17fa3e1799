-- ===== src/Graph/Store/Errors.antt =====
-- When `add_edge` raises, and what it raises.
use ligp_v.Prelude.{
  ◌≡◌, ◌⊎◌, inl, inr, refl, true, false, not, ◌&&◌, Option, none, some, [], ◌∷◌, ◌++◌, arith,
  if◌then◌else◌, string_eq, contains, or_default,
}
use ligp_v.Dict.{get, put, member}
use ligp_v.Graph.Weights.{Weighing}
use ligp_v.Graph.Store.{
  Error, Edge, GraphStore, Result, ok, raise, value_error, key_error, relation_types, add_edge,
  strengthen,
}
use ligp_v.Graph.Store.Valid.{IsWell, more_refs}

module _ {W : Type 0} ⦃o : Weighing W⦄ where
  -- The store that a successful `add_edge` leaves.
  after_edge : Edge W → GraphStore W → GraphStore W
  after_edge edge g =
      let es = or_default (get edge.from_node g.adj) [] in
      elim (strengthen edge es) [
        | some es' ↦ record g { adj = put edge.from_node es' g.adj }
        | none ↦ record g {
          adj = put edge.from_node (es ++ edge ∷ []) g.adj;
          incoming = put edge.to_node (more_refs edge g) g.incoming;
        }
      ]

  add_edge_succeeds :
      (edge : Edge W) (g : GraphStore W)
      → contains relation_types edge.relation_type ≡ true
      → member edge.from_node g.nodes ≡ true
      → member edge.to_node g.nodes ≡ true
      → member edge.from_node g.adj ≡ true
      → member edge.to_node g.incoming ≡ true
      → add_edge edge g ≡ ok (after_edge edge g)
  unfolding add_edge after_edge
  add_edge_succeeds edge g r f t a i = ground arith

  abbrev pub error_of : Result (GraphStore W) → Option Error
  error_of (ok g) = none
  error_of (raise e) = some e

  known_ends :
      (edge : Edge W) (g : GraphStore W)
      → IsWell g
      → contains relation_types edge.relation_type ≡ true
      → member edge.from_node g.nodes ≡ true
      → member edge.to_node g.nodes ≡ true
      → add_edge edge g ≡ ok (after_edge edge g)
  known_ends edge g w r f t =
      add_edge_succeeds edge g r f t (w.covered edge.from_node f).0 (w.covered edge.to_node t).1

  unknown :
      (edge : Edge W) (g : GraphStore W)
      → (contains relation_types edge.relation_type
          && (member edge.from_node g.nodes && member edge.to_node g.nodes))
        ≡ false
      → add_edge edge g ≡ (
          if contains relation_types edge.relation_type then raise key_error else raise value_error)
  unfolding add_edge
  unknown edge g h = ground arith

  -- On a well-formed store `add_edge` is a ValueError for a relation outside the schema, a KeyError
  -- for a relation of the schema with an end that is no node, and succeeds otherwise.
  pub error-add_edge :
      (edge : Edge W) (g : GraphStore W)
      → IsWell g
      → error_of (add_edge edge g) ≡ (
          if not (contains relation_types edge.relation_type)
          then some value_error
          else if member edge.from_node g.nodes && member edge.to_node g.nodes
          then none
          else some key_error)
  error-add_edge edge g w = ground (arith, known_ends edge g w, unknown edge g)

-- A call raises or returns.
pub Result-cases :
    {A : Type 0} (r : Result A) → ((e : Error) × (r ≡ raise e)) ⊎ ((a : A) × (r ≡ ok a))
Result-cases (ok a) = inr (a, refl)
Result-cases (raise e) = inl (e, refl)

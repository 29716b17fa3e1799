-- ===== src/Graph/Builders/Acceptance.antt =====
-- The store accepts what the builders build.
use ligp_v.Prelude.{
  ℕ, ◌≡◌, Bool, true, false, not, Option, none, arith, if◌then◌else◌, String, contains, string_eq,
  ap, ◌∙◌,
}
use ligp_v.Dict.{Dict, member}
use ligp_v.Graph.Weights.{nat_weighing}
use ligp_v.Graph.Store.{Edge, GraphStore, ok, raise, value_error, relation_types, add_edge}
use ligp_v.Graph.Store.Valid.{IsWell}
use ligp_v.Graph.Store.Errors.{error_of, error-add_edge}
use ligp_v.Graph.Builders.{build_edge}

chosen :
    (valid : Bool) (e edge : Edge ℕ)
    → (if not valid then raise value_error else ok e) ≡ ok edge
    → (valid ≡ true) × (edge ≡ e)
chosen true e edge h = ground arith
chosen false e edge h = absurd (ground arith)

built :
    (configured : Option (Dict String ℕ)) (from_node to_node relation_type : String)
    (weight : Option ℕ) (edge : Edge ℕ)
    → build_edge configured from_node to_node relation_type weight ≡ ok edge
    → (edge.from_node ≡ from_node)
      × (edge.to_node ≡ to_node)
      × (contains relation_types edge.relation_type ≡ true)
unfolding build_edge
built configured from_node to_node relation_type weight edge h =
    let (valid, same) = chosen (contains relation_types relation_type) _ edge h in
    (
      ap (λ (e : Edge ℕ). e.from_node) same,
      ap (λ (e : Edge ℕ). e.to_node) same,
      ap (λ (e : Edge ℕ). contains relation_types e.relation_type) same ∙ valid,
    )

-- An edge from `build_edge` between two nodes of a well-formed store is accepted by `add_edge`.
pub add_edge-build_edge :
    (configured : Option (Dict String ℕ)) (from_node to_node relation_type : String)
    (weight : Option ℕ) (edge : Edge ℕ) (g : GraphStore ℕ)
    → build_edge configured from_node to_node relation_type weight ≡ ok edge
    → IsWell g
    → member from_node g.nodes ≡ true
    → member to_node g.nodes ≡ true
    → error_of (add_edge edge g) ≡ none
add_edge-build_edge configured from_node to_node relation_type weight edge g h w f t =
    let (start, end, valid) = built configured from_node to_node relation_type weight edge h in
    let starts : member edge.from_node g.nodes ≡ true = ap (λ k. member k g.nodes) start ∙ f in
    let ends : member edge.to_node g.nodes ≡ true = ap (λ k. member k g.nodes) end ∙ t in
    error-add_edge edge g w ∙ rw (valid, starts, ends)

-- ===== src/Graph/Store.antt =====
-- `Node`, `Edge` and `InMemoryGraphStore` of graph/graph_store.py, over any weights. `_adj` holds the
-- edges. The edge objects in `_in` are those of `_adj`, and no code reads them there, so `_in` holds
-- references: an edge's start, end and relation.
pub mod Edges
pub mod Upsert
pub mod Valid
pub mod Errors
use ligp_v.Prelude.{
  ℕ, zero, suc, ◌+◌, ◌≡◌, ◌≢◌, refl, Bool, true, false, not, ◌&&◌, ◌||◌, Option, none, some, List,
  [], ◌∷◌, ◌++◌, arith, if◌then◌else◌, String, length, Eq, ◌==◌, string_eq, contains, map,
  or_default, is_some, keep, get_elem?,
}
use ligp_v.Dict.{Dict, get, put, set_default, keys, values, member}
use ligp_v.Graph.Weights.{Weighing, max_of}

abbrev pub node_types : List String
node_types = "topic" ∷ "entity" ∷ "event" ∷ "emotion" ∷ "audience" ∷ "product" ∷ []

abbrev pub relation_types : List String
relation_types =
    "related_to" ∷ "causes" ∷ "similar_to" ∷ "leads_to" ∷ "monetizes_via" ∷ "triggers_emotion"
    ∷ "belongs_to_event" ∷ []

-- Of `attrs` the numeric entries are kept.
pub record Node (W : Type 0) : Type 0 where
  pub id : String
  pub type : String
  pub name : String
  pub weight : W
  pub embedding : Option (List W)
  pub created_at : String
  pub attrs : Dict String W

pub record Edge (W : Type 0) : Type 0 where
  pub from_node : String
  pub to_node : String
  pub relation_type : String
  pub weight : W

pub record GraphStore (W : Type 0) : Type 0 where
  pub nodes : Dict String (Node W)
  pub adj : Dict String (List (Edge W))
  pub incoming : Dict String (List (String × String × String))

pub data Error : Type 0 where
  value_error key_error : Error

-- A call that raises has changed nothing, so the store comes back on success only.
pub data Result {ℓ} (A : Type ℓ) : Type ℓ where
  ok : A → Result A
  raise : Error → Result A

abbrev pub empty : {W : Type 0} → GraphStore W
empty = record { nodes = []; adj = []; incoming = [] }

module _ {W : Type 0} ⦃o : Weighing W⦄ where
  -- The upsert of an existing node: the greater weight, and an embedding if there was none.
  unfoldable pub merge_node : Node W → Node W → Node W
  merge_node existing node = record existing {
    weight = max_of existing.weight node.weight;
    embedding = elim existing.embedding [ none ↦ node.embedding | some v ↦ some v ];
  }

  unfoldable pub add_node : Node W → GraphStore W → Result (GraphStore W)
  add_node node g =
      if not (contains node_types node.type)
      then raise value_error
      else elim (get node.id g.nodes) [
        | none ↦ ok (record {
          nodes = put node.id node g.nodes;
          adj = set_default node.id [] g.adj;
          incoming = set_default node.id [] g.incoming;
        })
        | some existing ↦ ok (record g { nodes = put node.id (merge_node existing node) g.nodes })
      ]

  -- The test of the loop in `add_edge`.
  abbrev pub same_edge : Edge W → Edge W → Bool
  same_edge e edge = e.to_node == edge.to_node && e.relation_type == edge.relation_type

  -- The loop: `some` list in which the first such edge has the stronger weight, or `none`.
  unfoldable pub strengthen : Edge W → List (Edge W) → Option (List (Edge W))
  strengthen edge [] = none
  strengthen edge (e ∷ es) =
      let rest = strengthen edge es in
      if same_edge e edge
      then some (record e { weight = max_of e.weight edge.weight } ∷ es)
      else elim rest [ none ↦ none | some es' ↦ some (e ∷ es') ]

  -- Where `_adj` or `_in` lacks an end of an edge between nodes that are there, which no operation
  -- brings about, the code raises too, in the second case with the edge appended to `_adj`; the model
  -- gives no store then.
  unfoldable pub add_edge : Edge W → GraphStore W → Result (GraphStore W)
  add_edge edge g =
      if not (contains relation_types edge.relation_type)
      then raise value_error
      else if not (member edge.from_node g.nodes) || not (member edge.to_node g.nodes)
      then raise key_error
      else elim (get edge.from_node g.adj) [
        | none ↦ raise key_error
        | some es ↦ elim (strengthen edge es) [
          | some es' ↦ ok (record g { adj = put edge.from_node es' g.adj })
          | none ↦ elim (get edge.to_node g.incoming) [
            | none ↦ raise key_error
            | some refs ↦ ok (record g {
              adj = put edge.from_node (es ++ edge ∷ []) g.adj;
              incoming =
                  put edge.to_node (refs ++ (edge.from_node, edge.to_node, edge.relation_type) ∷ [])
                    g.incoming;
            })
          ]
        ]
      ]

module _ {W : Type 0} where
  unfoldable pub get_node : String → GraphStore W → Option (Node W)
  get_node node_id g = get node_id g.nodes

  abbrev pub targets : List (Edge W) → List String
  targets [] = []
  targets (e ∷ es) = e.to_node ∷ targets es

  unfoldable pub get_neighbors : String → GraphStore W → List String
  get_neighbors node_id g = targets (or_default (get node_id g.adj) [])

  unfoldable pub num_nodes : GraphStore W → ℕ
  num_nodes g = length g.nodes

  abbrev pub total : List (List (Edge W)) → ℕ
  total [] = 0
  total (es ∷ rest) = length es + total rest

  unfoldable pub num_edges : GraphStore W → ℕ
  num_edges g = total (values g.adj)

  abbrev pub join : List (List (Edge W)) → List (Edge W)
  join [] = []
  join (es ∷ rest) = es ++ join rest

  unfoldable pub list_edges : GraphStore W → List (Edge W)
  list_edges g = join (values g.adj)

  -- A row of `list_nodes`: id, type, name and weight.
  abbrev pub row : Node W → String × String × String × W
  row n = (n.id, n.type, n.name, n.weight)

  unfoldable pub list_nodes : GraphStore W → List (String × String × String × W)
  list_nodes g = map row (values g.nodes)

-- ===== src/Ingestion/Bootstrap.antt =====
-- ingestion/bootstrap_pipeline.py over the in-memory store. The seed files are the lists of their
-- entries, weights in hundredths; `none` is an exception, and the store stands as it was then.
pub mod Once
use ligp_v.Prelude.{
  ℕ, suc, ◌+◌, Bool, not, ◌&&◌, Option, none, some, List, [], ◌∷◌, String, if◌then◌else◌, ltb,
  or_default,
}
use ligp_v.Dict.{Dict}
use ligp_v.Graph.Weights.{nat_weighing}
use ligp_v.Graph.Store.{Node, GraphStore, Result, ok, raise, add_node, add_edge, num_nodes}
use ligp_v.Graph.Builders.{build_edge}

pub record SeedNode : Type 0 where
  pub id : String
  pub type : String
  pub name : String
  pub weight : Option ℕ
  pub embedding : Option (List ℕ)
  pub created_at : Option String

pub record SeedEdge : Type 0 where
  pub from_node : String
  pub to_node : String
  pub relation_type : String
  pub weight : Option ℕ

-- The node that an entry makes.
unfoldable pub node_of : SeedNode → Node ℕ
node_of n = record {
  id = n.id;
  type = n.type;
  name = n.name;
  weight = or_default n.weight 100;
  embedding = n.embedding;
  created_at = or_default n.created_at "";
  attrs = [];
}

unfoldable pub load_seed_nodes : List SeedNode → ℕ → GraphStore ℕ → GraphStore ℕ × Option ℕ
load_seed_nodes [] count g = (g, some count)
load_seed_nodes (n ∷ nodes) count g = elim (add_node (node_of n) g) [
  | raise e ↦ (g, none)
  | ok g' ↦ load_seed_nodes nodes (count + 1) g'
]

module _ (configured : Option (Dict String ℕ)) where
  unfoldable pub load_seed_edges : List SeedEdge → ℕ → GraphStore ℕ → GraphStore ℕ × Option ℕ
  load_seed_edges [] count g = (g, some count)
  load_seed_edges (e ∷ edges) count g =
      elim (build_edge configured e.from_node e.to_node e.relation_type e.weight) [
        | raise x ↦ (g, none)
        | ok edge ↦ elim (add_edge edge g) [
          | raise x ↦ (g, none)
          | ok g' ↦ load_seed_edges edges (count + 1) g'
        ]
      ]

  -- `bootstrap` of a store that is given; the result says whether it returned.
  unfoldable pub bootstrap :
      List SeedNode → List SeedEdge → Bool → GraphStore ℕ → GraphStore ℕ × Bool
  bootstrap nodes edges force g =
      if ltb 0 (num_nodes g) && not force
      then (g, Bool.true)
      else let (g', n) = load_seed_nodes nodes 0 g in
        elim n [
          | none ↦ (g', Bool.false)
          | some _ ↦
              let (h, e) = load_seed_edges edges 0 g' in
              (h, elim e [ none ↦ Bool.false | some _ ↦ Bool.true ])
        ]

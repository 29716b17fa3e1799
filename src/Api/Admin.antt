-- ===== src/Api/Admin.antt =====
-- api/admin/data.py. What the files of the seed, the database and the configuration hold is given:
-- `Files` and `Db` say how their reading ends. Floats are values of a type `W`.
pub mod Queue
pub mod Tallies
pub mod Revenue
use ligp_v.Prelude.{
  ℕ, zero, suc, ◌+◌, ◌%◌, Bool, true, false, not, ◌&&◌, Option, none, some, List, [], ◌∷◌, arith,
  if◌then◌else◌, String, Eq, string_eq, string_less, ◌==◌, leb, ltb, length, take, or_default,
  concat, truthy,
}
use ligp_v.Prelude.Sorting.{sort_by}
use ligp_v.Dict.{Dict, get, put}
use ligp_v.Graph.Weights.{Weighing}

abbrev pub node_type_colors : Dict String String
node_type_colors =
    ("topic", "#4f9dff")
    ∷ ("entity", "#27c2a0")
    ∷ ("event", "#f5a623")
    ∷ ("emotion", "#ff5d73")
    ∷ ("audience", "#a06bff")
    ∷ ("product", "#ffd166")
    ∷ []

-- The keys that are read of a node and of an edge, each of which may be missing.
pub record NodeRow (W : Type 0) : Type 0 where
  pub id : Option String
  pub name : Option (Option String)
  pub type : Option String
  pub weight : Option W

pub record EdgeRow (W : Type 0) : Type 0 where
  pub from_node : Option String
  pub to_node : Option String
  pub relation_type : Option String
  pub weight : Option W

pub record GraphData (W : Type 0) : Type 0 where
  pub nodes : List (NodeRow W)
  pub edges : List (EdgeRow W)

-- A database that is not configured, that raises at some point, or that answers.
pub data Db {ℓ} (A : Type ℓ) : Type ℓ where
  not_configured raises : Db A
  answers : A → Db A

-- A row of the payload.
pub record PayloadNode (W : Type 0) : Type 0 where
  pub id : Option String
  pub name : Option String
  pub type : String
  pub weight : W
  pub color : String

pub record Link (W : Type 0) : Type 0 where
  pub source : Option String
  pub target : Option String
  pub relation : String
  pub weight : W

pub record PathRow (W : Type 0) : Type 0 where
  pub source : Option String
  pub target : Option String
  pub weight : W

-- `_read_json(path).get(key, [])`: the file may be missing or broken, and the key too.
unfoldable pub read_rows {ℓ} : {A : Type ℓ} → Option (Option (List A)) → List A
read_rows none = []
read_rows (some rows) = or_default rows []

-- `==` of two ids, either of which may be `None`.
unfoldable pub same_id : Option String → Option String → Bool
same_id none none = true
same_id none (some b) = false
same_id (some a) none = false
same_id (some a) (some b) = a == b

-- The keys of a tally.
unfoldable pub tally : List String → Dict String ℕ → Dict String ℕ
tally [] counts = counts
tally (k ∷ ks) counts = tally ks (put k (or_default (get k counts) 0 + 1) counts)

-- `dict(sorted(counts.items()))`
unfoldable pub sorted_items : Dict String ℕ → Dict String ℕ
sorted_items counts = sort_by (λ a b. string_less a.0 b.0) counts

module _ {W : Type 0} where
  unfoldable pub load_seed_graph :
      Option (Option (List (NodeRow W))) → Option (Option (List (EdgeRow W))) → GraphData W
  load_seed_graph nodes edges = record { nodes = read_rows nodes; edges = read_rows edges }

  -- `graph if graph["nodes"] else None`
  unfoldable pub db_graph : Db (GraphData W) → Option (GraphData W)
  db_graph not_configured = none
  db_graph raises = none
  db_graph (answers graph) = elim graph.nodes [ [] ↦ none | _ ∷ _ ↦ some graph ]

  unfoldable pub graph_source : Db (GraphData W) → GraphData W → GraphData W
  graph_source db seed = or_default (db_graph db) seed

  -- `n.get("name", n.get("id"))`
  unfoldable pub name_of : NodeRow W → Option String
  name_of n = or_default n.name n.id

  unfoldable pub payload_nodes : W → List (NodeRow W) → List (PayloadNode W)
  payload_nodes half [] = []
  payload_nodes half (n ∷ nodes) =
      record {
        id = n.id;
        name = name_of n;
        type = or_default n.type "topic";
        weight = or_default n.weight half;
        color = or_default (get (or_default n.type "topic") node_type_colors) "#8892a6";
      }
      ∷ payload_nodes half nodes

  unfoldable pub payload_links : W → List (EdgeRow W) → List (Link W)
  payload_links half [] = []
  payload_links half (e ∷ edges) =
      record {
        source = e.from_node;
        target = e.to_node;
        relation = or_default e.relation_type "related_to";
        weight = or_default e.weight half;
      }
      ∷ payload_links half edges

  unfoldable pub graph_payload :
      W → Db (GraphData W) → GraphData W → List (PayloadNode W) × List (Link W)
  graph_payload half db seed =
      let graph = graph_source db seed in
      (payload_nodes half graph.nodes, payload_links half graph.edges)

  abbrev pub types_of : List (NodeRow W) → List String
  types_of [] = []
  types_of (n ∷ nodes) = or_default n.type "unknown" ∷ types_of nodes

  abbrev pub relations_of : List (EdgeRow W) → List String
  relations_of [] = []
  relations_of (e ∷ edges) = or_default e.relation_type "unknown" ∷ relations_of edges

pub record Stats : Type 0 where
  pub node_count : ℕ
  pub edge_count : ℕ
  pub nodes_by_type : Dict String ℕ
  pub edges_by_relation : Dict String ℕ

module _ {W : Type 0} where
  unfoldable pub graph_stats : Db (GraphData W) → GraphData W → Stats
  graph_stats db seed =
      let graph = graph_source db seed in
      record {
        node_count = length graph.nodes;
        edge_count = length graph.edges;
        nodes_by_type = sorted_items (tally (types_of graph.nodes) []);
        edges_by_relation = sorted_items (tally (relations_of graph.edges) []);
      }

  -- The entry of `name_by_id` under an id; of two nodes with one id the later names it.
  unfoldable pub named : List (NodeRow W) → Option String → Option (Option String)
  named [] v = none
  named (n ∷ nodes) v =
      let rest = named nodes v in
      elim rest [ some name ↦ some name | none ↦ if same_id n.id v then some (name_of n) else none ]

  unfoldable pub monetizing : List (EdgeRow W) → List (EdgeRow W)
  monetizing [] = []
  monetizing (e ∷ edges) =
      let rest = monetizing edges in
      if or_default e.relation_type "" == "monetizes_via" then e ∷ rest else rest

  unfoldable pub path_rows : W → List (NodeRow W) → List (EdgeRow W) → List (PathRow W)
  path_rows nought nodes [] = []
  path_rows nought nodes (e ∷ edges) =
      record {
        source = or_default (named nodes e.from_node) e.from_node;
        target = or_default (named nodes e.to_node) e.to_node;
        weight = or_default e.weight nought;
      }
      ∷ path_rows nought nodes edges

module _ {W : Type 0} ⦃o : Weighing W⦄ where
  -- `monetizing.sort(key=..., reverse=True)`
  unfoldable pub heavier : W → EdgeRow W → EdgeRow W → Bool
  heavier nought a b = o.less (or_default b.weight nought) (or_default a.weight nought)

  unfoldable pub top_revenue_paths : W → Db (GraphData W) → GraphData W → ℕ → List (PathRow W)
  top_revenue_paths nought db seed limit =
      let graph = graph_source db seed in
      path_rows nought graph.nodes (take limit (sort_by (heavier nought) (monetizing graph.edges)))

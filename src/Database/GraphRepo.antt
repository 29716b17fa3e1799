-- ===== src/Database/GraphRepo.antt =====
-- The tables of database/repositories/graph_repo.py and the hook of
-- orchestration/hooks/graph_persist.py that fills them. A table is a dictionary of its rows by
-- primary key. `up` says whether the database takes the next statement, from the tables so far.
pub mod Again
use ligp_v.Prelude.{
  ℕ, ◌≡◌, Bool, true, false, not, Option, none, some, List, [], ◌∷◌, String, concat, nonempty,
  if◌then◌else◌, truthy, string_eq, length,
}
use ligp_v.Dict.{Dict, get, put}
use ligp_v.Graph.Store.{Edge, GraphStore, list_nodes, list_edges}

pub record NodeRow (W : Type 0) : Type 0 where
  pub type : String
  pub name : String
  pub weight : W

pub record EdgeRow (W : Type 0) : Type 0 where
  pub from_node : String
  pub to_node : String
  pub relation_type : String
  pub weight : W

pub record Tables (W : Type 0) : Type 0 where
  pub nodes : Dict String (NodeRow W)
  pub edges : Dict String (EdgeRow W)

-- `_edge_id`
unfoldable pub edge_id : String → String → String → String
edge_id from_node to_node relation_type =
    concat from_node (concat "->" (concat to_node (concat ":" relation_type)))

module _ {W : Type 0} where
  -- A row that `upsert_node` writes, with its key.
  unfoldable pub node_row : String × String × String × W → String × NodeRow W
  node_row (node_id, type, name, weight) = (
    node_id,
    record { type = type; name = if nonempty name then name else node_id; weight = weight },
  )

  unfoldable pub edge_row : Edge W → String × EdgeRow W
  edge_row e = (
    edge_id e.from_node e.to_node e.relation_type,
    record {
      from_node = e.from_node;
      to_node = e.to_node;
      relation_type = e.relation_type;
      weight = e.weight;
    },
  )

  -- `ON CONFLICT(edge_id) DO UPDATE SET weight=excluded.weight`
  abbrev pub conflict : Option (EdgeRow W) → EdgeRow W → EdgeRow W
  conflict none row = row
  conflict (some old) row = record old { weight = row.weight }

  module _ (up : Tables W → Bool) where
    -- The loops of the hook; `false` is an exception of the database.
    unfoldable pub upsert_nodes : List (String × String × String × W) → Tables W → Tables W × Bool
    upsert_nodes [] t = (t, true)
    upsert_nodes (n ∷ nodes) t =
        if up t
        then (let (k, row) = node_row n in
            upsert_nodes nodes (record t { nodes = put k row t.nodes }))
        else (t, false)

    unfoldable pub upsert_edges : List (Edge W) → Tables W → Tables W × Bool
    upsert_edges [] t = (t, true)
    upsert_edges (e ∷ edges) t =
        if up t
        then (let (k, row) = edge_row e in
            upsert_edges edges (record t { edges = put k (conflict (get k t.edges) row) t.edges }))
        else (t, false)

    -- `url` is DATABASE_URL.
    unfoldable pub persist_graph_to_db : Option String → GraphStore W → Tables W → Tables W × Bool
    persist_graph_to_db url g t =
        if not (truthy url)
        then (t, false)
        else let (t', done) = upsert_nodes (list_nodes g) t in
          if done then upsert_edges (list_edges g) t' else (t', false)

  -- `counts`
  unfoldable pub counts : Tables W → ℕ × ℕ
  counts t = (length t.nodes, length t.edges)

-- ===== src/Graph/Versioning.antt =====
-- graph/versioning.py, over the in-memory store. Snapshots are copies, so a value of the model is its
-- own copy. `str` prints a number, `stamp` is the time in the snapshot's name.
pub mod History
pub mod Rollback
use ligp_v.Prelude.{
  ℕ, ◌+◌, ◌-◌, Bool, true, false, not, Option, none, some, List, [], ◌∷◌, ◌++◌, arith,
  if◌then◌else◌, String, length, drop, last?, or_default, keep, contains, map, concat, string_eq,
  ◌==◌, nat_beq,
}
use ligp_v.Dict.{Dict, get, put, keys, values, member}
use ligp_v.Graph.Store.{Node, Edge, GraphStore, list_edges}

pub record Snapshot (W : Type 0) : Type 0 where
  pub snapshot_id : String
  pub label : String
  pub created_at : String
  pub parent : Option String
  pub nodes : Dict String (Node W)
  pub edges : List (Edge W)
  pub delta_nodes : List String
  pub delta_edges : List String

pub record GraphVersioning (W : Type 0) : Type 0 where
  pub keep_versions : ℕ
  pub snapshots : List (Snapshot W)
  pub counter : ℕ

-- `list_snapshots` gives of each snapshot its names and four sizes.
pub record Row : Type 0 where
  pub snapshot_id : String
  pub label : String
  pub created_at : String
  pub parent : Option String
  pub num_nodes : ℕ
  pub num_edges : ℕ
  pub delta_nodes : ℕ
  pub delta_edges : ℕ

pub record Diff : Type 0 where
  pub added_nodes : List String
  pub removed_nodes : List String
  pub added_edges : List String
  pub removed_edges : List String

-- `deque.append` on a deque of a greatest length: the oldest elements make room.
unfoldable pub append_bounded {ℓ} : {A : Type ℓ} → ℕ → List A → A → List A
append_bounded maxlen xs x = drop (length xs + 1 - maxlen) (xs ++ x ∷ [])

-- `[x for x in xs if x not in known]`
abbrev pub fresh : List String → List String → List String
fresh known xs = keep (λ x. not (contains known x)) xs

-- `f"v{counter}-{stamp}"`
abbrev pub name : (ℕ → String) → ℕ → String → String
name str counter stamp = concat (concat "v" (str counter)) (concat "-" stamp)

-- `d.setdefault(k, []).append(x)`
unfoldable pub append_at {ℓ} :
    {A : Type ℓ} → String → A → Dict String (List A) → Dict String (List A)
append_at k x d = put k (or_default (get k d) [] ++ x ∷ []) d

module _ {W : Type 0} where
  -- `keep_versions or _keep_versions()`
  unfoldable pub init : ℕ → Option ℕ → GraphVersioning W
  init default keep_versions =
      let asked = or_default keep_versions 0 in
      record {
        keep_versions = if nat_beq asked 0 then default else asked;
        snapshots = [];
        counter = 0;
      }

  unfoldable pub snapshot_state : GraphStore W → Dict String (Node W) × List (Edge W)
  snapshot_state g = (g.nodes, list_edges g)

  unfoldable pub latest : GraphVersioning W → Option (Snapshot W)
  latest v = last? v.snapshots

  abbrev pub edge_key : Edge W → String
  edge_key e = concat e.from_node (concat "->" (concat e.to_node (concat ":" e.relation_type)))

  unfoldable pub snapshot_of :
      String → String → String → Option (Snapshot W) → GraphStore W → Snapshot W
  unfolding snapshot_state
  snapshot_of snap_id label now parent g =
      let (nodes, edges) = snapshot_state g in
      record {
        snapshot_id = snap_id;
        label = label;
        created_at = now;
        parent = elim parent [ none ↦ none | some p ↦ some p.snapshot_id ];
        nodes = nodes;
        edges = edges;
        delta_nodes = elim parent [ none ↦ [] | some p ↦ fresh (keys p.nodes) (keys nodes) ];
        delta_edges = elim parent [
          | none ↦ []
          | some p ↦ fresh (map edge_key p.edges) (map edge_key edges)
        ];
      }

  unfoldable pub create_snapshot :
      (ℕ → String)
      → String
      → String
      → GraphStore W
      → String
      → GraphVersioning W
      → GraphVersioning W × String
  unfolding append_bounded snapshot_of latest
  create_snapshot str stamp now g label v =
      let parent = latest v in
      let counter = v.counter + 1 in
      let snap_id = name str counter stamp in
      let snap = snapshot_of snap_id label now parent g in
      (
        record v { counter = counter; snapshots = append_bounded v.keep_versions v.snapshots snap },
        snap_id,
      )

  abbrev pub row : Snapshot W → Row
  row s = record {
    snapshot_id = s.snapshot_id;
    label = s.label;
    created_at = s.created_at;
    parent = s.parent;
    num_nodes = length s.nodes;
    num_edges = length s.edges;
    delta_nodes = length s.delta_nodes;
    delta_edges = length s.delta_edges;
  }

  unfoldable pub list_snapshots : GraphVersioning W → List Row
  list_snapshots v = map row v.snapshots

  -- `_get`; `none` is the KeyError.
  unfoldable pub find : String → List (Snapshot W) → Option (Snapshot W)
  find snapshot_id [] = none
  find snapshot_id (s ∷ snapshots) =
      let rest = find snapshot_id snapshots in if s.snapshot_id == snapshot_id then some s else rest

  -- `{nid: [] for nid in nodes}`
  abbrev pub blank {ℓ} : {A : Type ℓ} → Dict String (Node W) → Dict String (List A)
  blank [] = []
  blank ((k, n) ∷ nodes) = (k, []) ∷ blank nodes

  -- The loop of `rollback`; of `_in` references are kept.
  unfoldable pub restore_edges : List (Edge W) → GraphStore W → GraphStore W
  restore_edges [] g = g
  restore_edges (e ∷ edges) g = restore_edges edges (record g {
    adj = append_at e.from_node e g.adj;
    incoming = append_at e.to_node (e.from_node, e.to_node, e.relation_type) g.incoming;
  })

  unfoldable pub rollback : GraphStore W → String → GraphVersioning W → Option (GraphStore W)
  rollback g snapshot_id v = elim (find snapshot_id v.snapshots) [
    | none ↦ none
    | some snap ↦ some (
        restore_edges snap.edges
          (record g { nodes = snap.nodes; adj = blank snap.nodes; incoming = blank snap.nodes }))
  ]

  -- `sorted(...)` of a set difference; `sorted` orders the texts and drops repetitions.
  unfoldable pub diff :
      (List String → List String) → String → String → GraphVersioning W → Option Diff
  diff sorted snap_a snap_b v = elim (find snap_a v.snapshots) [
    | none ↦ none
    | some a ↦ elim (find snap_b v.snapshots) [
      | none ↦ none
      | some b ↦
          let a_edges = map edge_key a.edges in
          let b_edges = map edge_key b.edges in
          some (record {
            added_nodes = sorted (fresh (keys a.nodes) (keys b.nodes));
            removed_nodes = sorted (fresh (keys b.nodes) (keys a.nodes));
            added_edges = sorted (fresh a_edges b_edges);
            removed_edges = sorted (fresh b_edges a_edges);
          })
    ]
  ]

-- ===== src/Orchestration/Realtime.antt =====
-- `run_realtime_ingestion` of orchestration/flows/realtime_ingestion.py, over the in-memory store.
-- `node_id` is `make_node_id`, `decimal` the text of a number, `now` the time that a new node gets.
-- The persistence of the graph never raises and changes no state of the run, so it is left out.
pub mod Run
use ligp_v.Prelude.{
  ℕ, suc, ◌+◌, Bool, true, false, Option, none, some, List, [], ◌∷◌, String, concat, length,
  or_default,
}
use ligp_v.Graph.Weights.{nat_weighing}
use ligp_v.Graph.Store.{Node, GraphStore, Result, ok, raise, add_node, num_nodes, num_edges}
use ligp_v.Processing.Deduplicator.{Deduplicator, is_duplicate}
use ligp_v.Api.Metrics.{Metrics, record_graph_size, record_pipeline_run}

pub record Document : Type 0 where
  pub source_id : Option String
  pub title : Option String
  pub text : Option String

-- What is shared with the caller.
pub record State : Type 0 where
  pub store : GraphStore ℕ
  pub dedup : Deduplicator

pub record Summary : Type 0 where
  pub received : ℕ
  pub added : ℕ
  pub graph_nodes : ℕ

-- `f"{doc.get('title', '')} {doc.get('text', '')}"`
unfoldable pub text_of : Document → String
text_of doc = concat (or_default doc.title "") (concat " " (or_default doc.text ""))

unfoldable pub key_of : (ℕ → String) → ℕ → Document → String
key_of decimal i doc = or_default doc.source_id (concat "rt" (decimal i))

-- The node of a document, of weight 1.0.
unfoldable pub topic_node : (String → String → String) → String → Document → Node ℕ
topic_node node_id now doc =
    let topic = or_default doc.title "untitled" in
    record {
      id = node_id "topic" topic;
      type = "topic";
      name = topic;
      weight = 100;
      embedding = none;
      created_at = now;
      attrs = [];
    }

-- What follows the loop, the `finally` included. `installed` says whether prometheus_client is there;
-- `duration` is the time that has passed.
unfoldable pub conclude :
    {D : Type 0}
    → Bool
    → D
    → ℕ
    → Metrics D
    → State × Option ℕ
    → (State × Metrics D) × Option Summary
conclude installed duration received m (s, none) =
    ((s, record_pipeline_run installed "realtime" "error" duration m), none)
conclude installed duration received m (s, some added) =
    let m' = record_graph_size installed (num_nodes s.store) (num_edges s.store) m in
    (
      (s, record_pipeline_run installed "realtime" "success" duration m'),
      some (record { received = received; added = added; graph_nodes = num_nodes s.store }),
    )

module _ (tokens : String → List String) (normal : String → String) (hash64 : String → ℕ)
    (hash : List ℕ → ℕ) (content_hash : String → String) (node_id : String → String → String)
    (decimal : ℕ → String) (now : String) where
  -- The loop from document number `i`; `none` is an exception.
  unfoldable pub ingest : ℕ → List Document → State → ℕ → State × Option ℕ
  ingest i [] s added = (s, some added)
  ingest i (doc ∷ documents) s added =
      elim (is_duplicate tokens normal hash64 hash content_hash (key_of decimal i doc) (text_of doc)
        s.dedup) [
          | none ↦ (s, none)
          | some d ↦
              let s' = record s { dedup = d.0 } in
              elim d.1 [
                | true ↦ ingest (i + 1) documents s' added
                | false ↦ elim (add_node (topic_node node_id now doc) s.store) [
                  | raise e ↦ (s', none)
                  | ok g ↦ ingest (i + 1) documents (record s' { store = g }) (added + 1)
                ]
              ]
        ]

  module _ {D : Type 0} where
    unfoldable pub run_realtime_ingestion :
        Bool → D → List Document → State → Metrics D → (State × Metrics D) × Option Summary
    run_realtime_ingestion installed duration documents s m =
        conclude installed duration (length documents) m (ingest 0 documents s 0)

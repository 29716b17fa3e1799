-- ===== src/Orchestration/Realtime/Run.antt =====
-- The state of a realtime run between documents, and the run as a whole.
use ligp_v.Prelude.{
  ℕ, ◌+◌, ◌≡◌, ◌≤◌, refl, ◌∙◌, Bool, true, false, Option, some, List, [], ◌∷◌, String, length,
  arith, Bool-cases, ap, inl, inr, string_eq, contains,
}
use ligp_v.Graph.Weights.{nat_weighing}
use ligp_v.Graph.Store.{Node, GraphStore, ok, add_node, num_nodes, num_edges, node_types}
use ligp_v.Graph.Store.Errors.{Result-cases}
use ligp_v.Graph.Store.Valid.{IsWell, add_node-IsWell}
use ligp_v.Processing.Deduplicator.{Deduplicator, is_duplicate}
use ligp_v.Processing.Deduplicator.Memory.{Indexed, is_duplicate_again}
use ligp_v.Api.Metrics.{Metrics, record_graph_size, record_pipeline_run}
use ligp_v.Orchestration.Realtime.{
  Document, State, text_of, key_of, topic_node, ingest, run_realtime_ingestion, conclude,
}

-- A node of a known type is never refused.
pub accepted :
    (n : Node ℕ) (g : GraphStore ℕ)
    → contains node_types n.type ≡ true
    → (g' : GraphStore ℕ) × (add_node n g ≡ ok g')
unfolding add_node
accepted n g known = elim (Result-cases (add_node n g)) [
  | inl (e, raised) ↦ absurd (ground (arith, known, raised))
  | inr (g', added) ↦ (g', added)
]

-- What holds of the state between documents.
pub record IsSound (s : State) : Type 0 where
  pub well : IsWell s.store
  pub indexed : Indexed s.dedup.lsh

module _ (tokens : String → List String) (normal : String → String) (hash64 : String → ℕ)
    (hash : List ℕ → ℕ) (content_hash : String → String) (node_id : String → String → String)
    (decimal : ℕ → String) (now : String) where
  abbrev go : ℕ → List Document → State → ℕ → State × Option ℕ
  go = ingest tokens normal hash64 hash content_hash node_id decimal now

  topic_type : (doc : Document) → contains node_types (topic_node node_id now doc).type ≡ true
  unfolding topic_node
  topic_type doc = refl

  duplicate :
      (i : ℕ) (doc : Document) (documents : List Document) (s : State) (d : Deduplicator) (b : Bool)
      (added : ℕ)
      → is_duplicate tokens normal hash64 hash content_hash
          (key_of decimal i doc)
          (text_of doc)
          s.dedup
        ≡ some (d, b)
      → b ≡ true
      → go i (doc ∷ documents) s added ≡ go (i + 1) documents (record s { dedup = d }) added
  unfolding ingest
  duplicate i doc documents s d b added answer seen = rw (answer, seen, ingest) refl

  new_topic :
      (i : ℕ) (doc : Document) (documents : List Document) (s : State) (d : Deduplicator) (b : Bool)
      (g : GraphStore ℕ) (added : ℕ)
      → is_duplicate tokens normal hash64 hash content_hash
          (key_of decimal i doc)
          (text_of doc)
          s.dedup
        ≡ some (d, b)
      → b ≡ false
      → add_node (topic_node node_id now doc) s.store ≡ ok g
      → go i (doc ∷ documents) s added
        ≡ go (i + 1) documents (record { store = g; dedup = d }) (added + 1)
  unfolding ingest
  new_topic i doc documents s d b g added answer fresh added_it =
      rw (answer, fresh, added_it, ingest) refl

  ingest-IsSound :
      (i : ℕ) (documents : List Document) (s : State) (added : ℕ)
      → IsSound s
      → (s' : State) × (n : ℕ) × (go i documents s added ≡ (s', some n))
        × IsSound s'
        × (n ≤ added + length documents)
  unfolding ingest
  ingest-IsSound i [] s added w = (s, added, refl, w, omega arith)
  ingest-IsSound i (doc ∷ documents) s added w =
      let key = key_of decimal i doc in
      let (d, b, answer, again, indexed) =
        is_duplicate_again tokens normal hash64 hash content_hash key key (text_of doc) s.dedup
          w.indexed in
      elim (Bool-cases b) [
        | inl seen ↦
            let (s', n, runs, w', h) =
              ingest-IsSound (i + 1) documents (record s { dedup = d }) added
                (record { well = w.well; indexed = indexed }) in
            (s', n, duplicate i doc documents s d b added answer seen ∙ runs, w', omega arith)
        | inr fresh ↦
            let (g, added_it) = accepted (topic_node node_id now doc) s.store (topic_type doc) in
            let (s', n, runs, w', h) =
              ingest-IsSound (i + 1) documents (record { store = g; dedup = d }) (added + 1)
                (record {
                  well = add_node-IsWell (topic_node node_id now doc) s.store g added_it w.well;
                  indexed = indexed;
                }) in
            (
              s',
              n,
              new_topic i doc documents s d b g added answer fresh added_it ∙ runs,
              w',
              omega arith,
            )
      ]

  module _ {D : Type 0} where
    finished :
        (installed : Bool) (duration : D) (documents : List Document) (s s' : State) (m : Metrics D)
        (n : ℕ)
        → go 0 documents s 0 ≡ (s', some n)
        → run_realtime_ingestion tokens normal hash64 hash content_hash node_id decimal now
            installed duration documents s m
          ≡ (
            (
              s',
              record_pipeline_run installed "realtime" "success" duration
                  (record_graph_size installed (num_nodes s'.store) (num_edges s'.store) m),
            ),
            some (record {
              received = length documents;
              added = n;
              graph_nodes = num_nodes s'.store;
            }),
          )
    unfolding run_realtime_ingestion conclude
    finished installed duration documents s s' m n runs =
        ap (conclude installed duration (length documents) m) runs

    -- On a well-formed store and a deduplicator whose index is sound, a run never raises: it returns
    -- a summary with at most as many nodes added as documents received, leaves both well formed, and
    -- records the size of the graph it leaves and then one run, as a success.
    pub run_realtime_ingestion_lem :
        (installed : Bool) (duration : D) (documents : List Document) (s : State) (m : Metrics D)
        → IsSound s
        → (s' : State) × (n : ℕ) × (run_realtime_ingestion tokens normal hash64 hash content_hash
              node_id decimal now installed duration documents s m
            ≡ (
              (
                s',
                record_pipeline_run installed "realtime" "success" duration
                    (record_graph_size installed (num_nodes s'.store) (num_edges s'.store) m),
              ),
              some (record {
                received = length documents;
                added = n;
                graph_nodes = num_nodes s'.store;
              }),
            ))
          × IsSound s'
          × (n ≤ length documents)
    run_realtime_ingestion_lem installed duration documents s m w =
        let (s', n, runs, w', h) = ingest-IsSound 0 documents s 0 w in
        (s', n, finished installed duration documents s s' m n runs, w', omega arith)

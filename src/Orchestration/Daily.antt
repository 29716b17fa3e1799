-- ===== src/Orchestration/Daily.antt =====
-- `run_daily_pipeline` of orchestration/flows/daily_pipeline.py over the in-memory store, with weights
-- and scores in hundredths. Parameters stand for the parts that this model leaves out, and each of
-- them may raise (`none`): the language detector with the entity extractor (`extract`), the
-- centrality, the two scores of the candidates (`batch_compute`, `revenue`) and the quality gate
-- (`check`). The persistence of the graph changes no state of the run and raises nothing.
pub mod Stages
pub mod Faults
pub mod Outcome
use ligp_v.Prelude.{
  ℕ, suc, ◌+◌, Bool, true, false, Option, none, some, List, [], ◌∷◌, ◌++◌, String, length,
  or_default, or_else, if◌then◌else◌, string_eq, ◌==◌,
}
use ligp_v.Dict.{Dict}
use ligp_v.Graph.Weights.{nat_weighing}
use ligp_v.Graph.Store.{
  Node, Edge, GraphStore, Result, ok, raise, add_node, add_edge, empty, get_node, get_neighbors,
  num_nodes, num_edges,
}
use ligp_v.Processing.Deduplicator.{Deduplicator, is_duplicate}
use ligp_v.Decision.Selector.{Candidate, select}
use ligp_v.Orchestration.Realtime.{Document, text_of, topic_node}
use ligp_v.Content.Blog.{Generator, Content, Answer, generate}
use ligp_v.Ingestion.Bootstrap.{SeedNode, SeedEdge, bootstrap}
use ligp_v.Content.Blog
use ligp_v.Api.Metrics.{Metrics, record_graph_size, record_pipeline_run, record_content_generated}

-- What the extractor gives.
pub record Mention : Type 0 where
  pub qid : Option String
  pub text : String
  pub confidence : ℕ

-- A step of the graph build, `none` if it raises.
abbrev pub ok_or : Result (GraphStore ℕ) → Option (GraphStore ℕ)
ok_or (ok g) = some g
ok_or (raise e) = none

-- `{i}` of the key where there is no `source_id`.
unfoldable pub key_of : (ℕ → String) → ℕ → Document → String
key_of doc_key i doc = or_default doc.source_id (doc_key i)

-- The first loop, from document number `i`.
unfoldable pub unique_from :
    (String → String → Deduplicator → Option (Deduplicator × Bool))
    → (ℕ → String)
    → ℕ
    → List Document
    → Deduplicator
    → Option (List Document)
unique_from duplicate doc_key i [] d = some []
unique_from duplicate doc_key i (doc ∷ documents) d =
    elim (duplicate (key_of doc_key i doc) (text_of doc) d) [
      | none ↦ none
      | some r ↦ elim (unique_from duplicate doc_key (i + 1) documents r.0) [
        | none ↦ none
        | some rest ↦ some (if r.1 then rest else doc ∷ rest)
      ]
    ]

module _ (node_id : String → String → String) (now : String) where
  unfoldable pub mention_node : Mention → Node ℕ
  mention_node ent = record {
    id = or_default (or_else ent.qid (some (node_id "entity" ent.text))) "";
    type = "entity";
    name = ent.text;
    weight = ent.confidence;
    embedding = none;
    created_at = now;
    attrs = [];
  }

  -- The inner loop of the graph build.
  unfoldable pub add_mentions : String → List Mention → GraphStore ℕ → Option (GraphStore ℕ)
  add_mentions topic_id [] g = some g
  add_mentions topic_id (ent ∷ ents) g = elim (ok_or (add_node (mention_node ent) g)) [
    | none ↦ none
    | some h ↦
        elim (ok_or (
          add_edge
            (record {
              from_node = topic_id;
              to_node = (mention_node ent).id;
              relation_type = "related_to";
              weight = 50;
            })
            h)) [ none ↦ none | some k ↦ add_mentions topic_id ents k ]
  ]

  unfoldable pub build :
      (String → Option (List Mention)) → List Document → GraphStore ℕ → Option (GraphStore ℕ)
  build extract [] g = some g
  build extract (doc ∷ unique) g = elim (ok_or (add_node (topic_node node_id now doc) g)) [
    | none ↦ none
    | some h ↦ elim (extract (text_of doc)) [
      | none ↦ none
      | some ents ↦ elim (add_mentions (topic_node node_id now doc).id ents h) [
        | none ↦ none
        | some k ↦ build extract unique k
      ]
    ]
  ]

-- What a candidate has before it is scored.
pub record Raw : Type 0 where
  pub node_id : String
  pub edge_sum : ℕ
  pub centrality : ℕ

-- The candidates: the topics of the store, in the order of the centrality.
unfoldable pub candidates_from : GraphStore ℕ → Dict String ℕ → List Raw
candidates_from g [] = []
candidates_from g ((id, cent) ∷ centrality) =
    let rest = candidates_from g centrality in
    elim (get_node id g) [
      | none ↦ rest
      | some node ↦
          if node.type == "topic"
          then record { node_id = id; edge_sum = length (get_neighbors id g); centrality = cent }
            ∷ rest
          else rest
    ]

-- What the selector reads of a candidate that is scored.
abbrev pub candidate_of : String → ℕ → Candidate ℕ
candidate_of id score = record {
  topic = some id;
  topic_id = none;
  node_id = some id;
  success = none;
  fail = none;
  final_score = some score;
  score = some score;
}

-- The loop after `batch_compute`, over the ids with their scores in the order that it leaves; the
-- revenue score is computed and not read.
unfoldable pub finals :
    (String → String → Option ℕ) → String → List (String × ℕ) → Option (List (Candidate ℕ))
finals revenue platform [] = some []
finals revenue platform ((id, score) ∷ scored) = elim (revenue id platform) [
  | none ↦ none
  | some _ ↦ elim (finals revenue platform scored) [
    | none ↦ none
    | some rest ↦ some (candidate_of id score ∷ rest)
  ]
]

pub record Summary (C : Type 0) : Type 0 where
  pub ingested : ℕ
  pub unique : ℕ
  pub graph_nodes : ℕ
  pub candidates : ℕ
  pub selected : ℕ
  pub generated : List (Content C × Bool)

-- What the pipeline takes from its surroundings: the parameters of the deduplicator, the graph
-- build, the bootstrap, the scores, the selector, the generator and the gate.
pub record Env (C : Type 0) : Type 0 where
  pub tokens : String → List String
  pub normal : String → String
  pub hash64 : String → ℕ
  pub hash : List ℕ → ℕ
  pub content_hash : String → String
  pub dedup : Deduplicator
  pub doc_key : ℕ → String
  pub node_id : String → String → String
  pub now : String
  pub extract : String → Option (List Mention)
  pub configured : Option (Dict String ℕ)
  pub seed_nodes : List SeedNode
  pub seed_edges : List SeedEdge
  pub centrality : GraphStore ℕ → Option (Dict String ℕ)
  pub batch_compute : List Raw → Option (List (String × ℕ))
  pub revenue : String → String → Option ℕ
  pub value : ℕ → Candidate ℕ → ℕ
  pub platform_quota : Dict String ℕ
  pub max_same_topic : ℕ
  pub generator : Generator
  pub chars : String → List C
  pub parse : String → Option (Answer C)
  pub encoder : Option (List C → ℕ)
  pub words : List C → ℕ
  pub reply : String → Option (Option String)
  pub check : Content C → String → Option Bool

-- The node that the generator gets of a candidate: its name is that of the node in the store.
unfoldable pub blog_node : GraphStore ℕ → Candidate ℕ → Blog.Node
blog_node g cand = record {
  emotion = none;
  label = none;
  name = elim (get_node (or_default cand.node_id "") g) [ none ↦ none | some n ↦ some n.name ];
  tags = none;
}

-- The bootstrap of a new store and the graph build, `none` if either raises.
unfoldable pub graph_of : {C : Type 0} → Env C → List Document → Option (GraphStore ℕ)
graph_of env unique =
    let (g, returned) = bootstrap env.configured env.seed_nodes env.seed_edges false empty in
    if returned then build env.node_id env.now env.extract unique g else none

-- The centrality and the scores, `none` if one of them raises.
unfoldable pub evaluate : {C : Type 0} → Env C → String → GraphStore ℕ → Option (List (Candidate ℕ))
evaluate env platform g = elim (env.centrality g) [
  | none ↦ none
  | some centrality ↦ elim (env.batch_compute (candidates_from g centrality)) [
    | none ↦ none
    | some scored ↦ finals env.revenue platform scored
  ]
]

module _ {C D : Type 0} (env : Env C) (installed : Bool) where
  -- The last loop, `none` if it raises; what it has recorded stays.
  unfoldable pub produce :
      GraphStore ℕ
      → String
      → List (Candidate ℕ)
      → Generator
      → Metrics D
      → Metrics D × Option (List (Content C × Bool))
  produce g platform [] gen m = (m, some [])
  produce g platform (cand ∷ selected) gen m =
      let (gen', made) =
        generate env.chars env.parse env.encoder env.words env.reply (blog_node g cand) platform
          gen in
      elim made [
        | none ↦ (m, none)
        | some content ↦ elim (env.check content platform) [
          | none ↦ (m, none)
          | some passed ↦
              let (m', outputs) =
                produce g platform selected gen'
                  (record_content_generated installed platform passed m) in
              (m', elim outputs [ none ↦ none | some rest ↦ some ((content, passed) ∷ rest) ])
        ]
      ]

  -- The end of the pipeline, on what comes of the last loop.
  unfoldable pub summarize :
      ℕ
      → ℕ
      → ℕ
      → ℕ
      → GraphStore ℕ
      → Metrics D × Option (List (Content C × Bool))
      → Metrics D × Option (Summary C)
  summarize ingested unique candidates selected g (m, none) = (m, none)
  summarize ingested unique candidates selected g (m, some generated) = (
    record_graph_size installed (num_nodes g) (num_edges g) m,
    some (record {
      ingested = ingested;
      unique = unique;
      graph_nodes = num_nodes g;
      candidates = candidates;
      selected = selected;
      generated = generated;
    }),
  )

  -- The selection and all after it, for the candidates with their scores.
  unfoldable pub finish :
      ℕ
      → ℕ
      → String
      → ℕ
      → List (Candidate ℕ)
      → GraphStore ℕ
      → Metrics D
      → Metrics D × Option (Summary C)
  finish ingested unique platform top_k candidates g m =
      let selected =
        select env.value env.platform_quota env.max_same_topic candidates platform top_k in
      summarize ingested unique (length candidates) (length selected) g
        (produce g platform selected env.generator m)

  -- `_run_daily_pipeline`
  unfoldable pub pipeline : List Document → String → ℕ → Metrics D → Metrics D × Option (Summary C)
  pipeline documents platform top_k m =
      elim (unique_from (is_duplicate env.tokens env.normal env.hash64 env.hash env.content_hash)
        env.doc_key 0 documents env.dedup) [
          | none ↦ (m, none)
          | some unique ↦ elim (graph_of env unique) [
            | none ↦ (m, none)
            | some g ↦ elim (evaluate env platform g) [
              | none ↦ (m, none)
              | some candidates ↦
                  finish (length documents) (length unique) platform top_k candidates g m
            ]
          ]
        ]

  -- The `try` and the `finally` around it.
  unfoldable pub observed : D → Metrics D × Option (Summary C) → Metrics D × Option (Summary C)
  observed duration (m, none) = (record_pipeline_run installed "daily" "error" duration m, none)
  observed duration (m, some s) =
      (record_pipeline_run installed "daily" "success" duration m, some s)

  unfoldable pub run_daily_pipeline :
      D → List Document → String → ℕ → Metrics D → Metrics D × Option (Summary C)
  run_daily_pipeline duration documents platform top_k m =
      observed duration (pipeline documents platform top_k m)

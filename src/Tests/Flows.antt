-- ===== src/Tests/Flows.antt =====
-- The bootstrap of an empty store, and a realtime run over two documents.
use ligp_v.Prelude.{ℕ, zero, ◌≡◌, ◌≤◌, refl, true, false, none, some, List, [], ◌∷◌, concat}
use ligp_v.Dict.{get, put, set_default}
use ligp_v.Graph.Weights.{nat_weighing}
use ligp_v.Graph.Store.{GraphStore, empty, add_node, num_nodes, num_edges}
use ligp_v.Ingestion.Bootstrap.{
  SeedNode, SeedEdge, node_of, load_seed_nodes, load_seed_edges, bootstrap,
}
use ligp_v.Ingestion.Bootstrap.Once.{bootstrap_once}
use ligp_v.Api.Metrics
use ligp_v.Api.Metrics.{record_graph_size, record_pipeline_run}
use ligp_v.Orchestration.Realtime.{Document, State, run_realtime_ingestion}
use ligp_v.Orchestration.Realtime.Run.{IsSound, run_realtime_ingestion_lem}
use ligp_v.Tests.Graph.{two, two-IsWell}
use ligp_v.Tests.Processing.{words, same, hash64, hash, fresh, fresh-Indexed}

abbrev pub seed_node : SeedNode
seed_node = record {
  id = "a";
  type = "topic";
  name = "a";
  weight = some 4;
  embedding = none;
  created_at = some "t";
}

abbrev seed_edge : SeedEdge
seed_edge = record { from_node = "a"; to_node = "x"; relation_type = "causes"; weight = none }

abbrev pub seeded : GraphStore ℕ
seeded = record {
  nodes = ("a", node_of seed_node) ∷ [];
  adj = ("a", []) ∷ [];
  incoming = ("a", []) ∷ [];
}

seeding : bootstrap none (seed_node ∷ []) [] false empty ≡ (seeded, true)
unfolding bootstrap num_nodes load_seed_nodes load_seed_edges add_node node_of get put set_default
seeding = refl

bootstrap_once_example :
    bootstrap none (seed_node ∷ []) (seed_edge ∷ []) false seeded ≡ (seeded, true)
bootstrap_once_example =
    bootstrap_once none seed_node [] (seed_node ∷ []) [] (seed_edge ∷ []) empty seeded seeding

abbrev pub documents : List Document
documents =
    record { source_id = some "k1"; title = some "news"; text = none }
    ∷ record { source_id = none; title = none; text = some "more" }
    ∷ []

abbrev state : State
state = record { store = two; dedup = fresh }

state-IsSound : IsSound state
state-IsSound = record { well = two-IsWell; indexed = fresh-Indexed }

run_realtime_ingestion_lem_example :
    (s : State) × (n : ℕ) × (run_realtime_ingestion words same hash64 hash same concat
        (λ n. "0")
        "t"
        true
        zero
        documents
        state
        Metrics.init
      ≡ (
        (
          s,
          record_pipeline_run true "realtime" "success" zero
              (record_graph_size true (num_nodes s.store) (num_edges s.store) Metrics.init),
        ),
        some (record { received = 2; added = n; graph_nodes = num_nodes s.store }),
      ))
    × IsSound s
    × (n ≤ 2)
run_realtime_ingestion_lem_example =
    run_realtime_ingestion_lem words same hash64 hash same concat (λ n. "0") "t" true zero documents
      state Metrics.init state-IsSound

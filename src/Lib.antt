-- ===== src/Lib.antt =====
-- LIGP, the content pipeline of this repository: it collects documents from platforms, keeps a
-- knowledge graph, and publishes what it generates. The development models the Python code of the
-- following parts; state is passed explicitly, and clocks, random draws, sources, publishers and
-- Redis are parameters.
--
-- Ingestion (ingestion/base_collector.py): `Ingestion.Breaker` is CircuitBreaker,
-- `Ingestion.Bucket` TokenBucket, `Ingestion.DeadLetters` DeadLetterQueue and
-- `Ingestion.Collector` BaseCollector, whose `collect` passes the bucket, then the breaker, then
-- fetches with the delays of utils/retry.py, and ends with items or with a dead letter. A method
-- under a lock is one step.
--
-- Utils: `Utils.Retry` is utils/retry.py (compute_delay and the decorator), `Utils.RateLimiter` is
-- utils/rate_limiter.py (the in-process bucket, the Lua script, the distributed bucket), and
-- `Utils.Cache` is utils/cache.py.
--
-- Publisher: `Publisher.Saga` is publisher/saga_coordinator.py. A saga is a shared object, so each
-- write to it is a write of the entry under its id.
--
-- Graph: `Graph.Store` is the in-memory store of graph/graph_store.py, over any weights that meet
-- the interface of `Graph.Weights`; `Graph.Versioning` is graph/versioning.py, whose snapshots
-- copy the nodes and edges of that store and whose rollback writes them back. `Graph.Builders` is
-- graph/node_builder.py and graph/edge_builder.py. `Graph.Query` is graph/query.py, whose
-- `shortest_path` is in `Graph.Shortest`, and `Graph.Propagation` is graph/propagation.py; they read
-- the adjacency lists of the store.
--
-- `Ingestion.Bootstrap` is ingestion/bootstrap_pipeline.py, which fills the store, and
-- `Orchestration.Realtime` orchestration/flows/realtime_ingestion.py, which passes documents
-- through the deduplicator into the store and records in the metrics. `Orchestration.Daily` is
-- orchestration/flows/daily_pipeline.py, which also selects candidates and generates contents; its
-- parameters for the parts that are left out may raise.
-- `Compliance.Pii` is compliance/pii_masker.py, over texts as lists of characters.
--
-- `Nlp.Normalizer` is nlp/entity_normalizer.py, and `Content.Blog` is
-- content_factory/generators/blog_generator.py with its base class. `Content.QualityGate` and
-- `Content.Readability` are content_factory/quality_gate.py, and `Compliance.Copyright` is
-- compliance/copyright_scorer.py; both take exact fractions for floats. `Compliance.Robots` is
-- compliance/robots_checker.py.
--
-- `EventEngine.EventDb` is event_engine/event_db.py, whose table is a dictionary by the id of the
-- event, and `EventEngine.EventMatcher` is event_engine/event_matcher.py.
--
-- `Api.Admin` is api/admin/data.py, which reads the persisted graph or the seed, and `Api.Health` is
-- api/health_checks.py.
--
-- Scores: `Scoring.Ranking` and `Scoring.Probability` are scoring_engine/ranking.py and
-- scoring_engine/probability_model.py, `TimeEngine.Trend` is time_engine/trend_detector.py, and
-- `Feedback.Attribution`, `Feedback.Weights` and `Feedback.Metrics` are the three modules of
-- feedback_engine/.
--
-- Database: `Database.Adapter` is database/db_adapter.py. Its drivers answer to the list of the
-- calls made so far, and what a database keeps of these calls is read off the list.
-- `Database.GraphRepo` has the tables of database/repositories/graph_repo.py and
-- orchestration/hooks/graph_persist.py.
--
-- Decision: `Decision.Selector` is decision_engine/selector.py. Experiments: `Experiments.Manager`
-- is experiments/ab_test_manager.py with experiments/variant_router.py.
--
-- Processing: `Processing.Signatures` has the MinHash and SimHash signatures of
-- processing/deduplicator.py, `Processing.Deduplicator` its index and its detector.
--
-- Api: `Api.Auth` is api/middleware/auth.py, `Api.Metrics` with `Api.Metrics.Middleware` is
-- api/metrics.py, and `Api.Content` has the generation jobs of api/routes/content.py and
-- orchestration/tasks.py, which write the table of database/repositories/content_repo.py and
-- record in the metrics.
--
-- `Dict` is Python's insertion-ordered dictionary; `Prelude` has what all parts share.
--
-- Bounds and fuel: `attempts`, `retry_loop` and `publish_loop` recur on the rounds that `range`
-- leaves, so no fuel is needed. The `while` loop of `get_neighbors` has one round more than the
-- store has nodes, and that of `propagate` as many as the caller gives; a round takes one entry
-- off the frontier, a node of the store is queued once by `get_neighbors`, and `propagate` queues
-- one entry for each walk of at most `hops` steps. The loop of `shortest_path` has one round for
-- each edge of the store and one more: a node queues entries only when it first leaves the heap, at
-- most one for each of its edges. Numbers of the code that are floats (tokens,
-- seconds, delays) are whole numbers of a unit that makes the code's own arithmetic exact;
-- rounding is not modelled, but for the costs of `shortest_path`, whose laws hold of rounded sums.
-- The weights of the graph are abstract.
--
-- Not modelled: logging, the HTTP layer beyond the two middlewares, templates, SQL and migrations,
-- external clients, the entity extractor, the centrality, and numeric models over floats.
pub mod Prelude
pub mod Dict
pub mod Utils
pub mod Ingestion
pub mod Publisher
pub mod Graph
pub mod Decision
pub mod Api
pub mod Experiments
pub mod Processing
mod Tests
pub mod Database
pub mod Compliance
pub mod Orchestration
pub mod Nlp
pub mod Content
pub mod EventEngine
pub mod TimeEngine
pub mod Scoring
pub mod Feedback

-- ===== src/Tests/Daily.antt =====
-- A daily run over two documents.
use ligp_v.Prelude.{ℕ, true, none, some, List, [], ◌∷◌, String, concat, length}
use ligp_v.Api.Metrics
use ligp_v.Api.Metrics.{Metrics}
use ligp_v.Orchestration.Daily.{Env, Raw}
use ligp_v.Tests.Processing.{words, same, hash64, hash, fresh}
use ligp_v.Tests.Flows.{seed_node}
use ligp_v.Tests.Generation.{chars, parse, generator}

abbrev ranks : List Raw → List (String × ℕ)
ranks [] = []
ranks (r ∷ raw) = (r.node_id, r.centrality) ∷ ranks raw

abbrev env : Env ℕ
env = record {
  tokens = words;
  normal = same;
  hash64 = hash64;
  hash = hash;
  content_hash = same;
  dedup = fresh;
  doc_key = λ i. "doc";
  node_id = concat;
  now = "t";
  extract = λ text. some (record { qid = none; text = "x"; confidence = 70 } ∷ []);
  configured = none;
  seed_nodes = seed_node ∷ [];
  seed_edges = [];
  centrality = λ g. some (("a", 5) ∷ []);
  batch_compute = λ raw. some (ranks raw);
  revenue = λ id platform. some 1;
  value = λ call cand. call;
  platform_quota = [];
  max_same_topic = 2;
  generator = generator;
  chars = chars;
  parse = parse;
  encoder = none;
  words = length;
  reply = λ prompt. none;
  check = λ content platform. some true;
}

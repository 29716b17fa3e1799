-- ===== src/Api/Metrics.antt =====
-- api/metrics.py. A counter or gauge is a dictionary from its labels to its value, as the package
-- `prometheus_client` keeps it; a histogram is the list of its observations. `installed` says whether
-- that package can be imported. The multiprocess files and the text format are the package's.
pub mod Samples
pub mod Middleware
use ligp_v.Prelude.{
  ℕ, zero, suc, ◌+◌, ◌-◌, Bool, true, false, not, ◌||◌, Option, none, some, List, [], ◌∷◌, ◌++◌,
  arith, if◌then◌else◌, String, leb, nat_beq, or_default, nonempty, string_eq, nat_eq, pair_eq,
  ◌==◌, Eq, ◌&&◌,
}
use ligp_v.Prelude.Int.{ℤ, pos, negsuc, ◌+ℤ◌}
use ligp_v.Dict.{Dict, get, put, values}

-- `D` are the durations.
pub record Metrics (D : Type 0) : Type 0 where
  pub available : Bool
  pub requests_total : Dict ((String × String) × ℕ) ℕ
  pub request_duration : Dict (String × String) (List D)
  pub in_progress : Dict (String × String) ℤ
  pub graph_nodes : ℕ
  pub graph_edges : ℕ
  pub content_generated : Dict (String × String) ℕ
  pub pipeline_runs : Dict (String × String) ℕ
  pub pipeline_duration : Dict String (List D)
  pub collector_docs : Dict (String × String) ℕ
  pub db_pool_active : ℕ
  pub db_pool_total : ℕ
  pub celery_queue_len : ℕ

-- The keys of `snapshot`.
pub record Snapshot : Type 0 where
  pub graph_nodes : ℕ
  pub graph_edges : ℕ
  pub http_requests_total : ℕ
  pub http_requests_in_progress : ℤ
  pub content_generated_total : ℕ
  pub pipeline_runs_total : ℕ

-- What a pool reports.
pub record PoolStats : Type 0 where
  pub connections_in_use : Option ℕ
  pub pool_size : Option ℕ
  pub pool_available : Option ℕ
  pub connections_num : Option ℕ

-- `labels(...).inc(n)` on a counter, `observe` on a histogram.
unfoldable pub inc : {K : Type 0} ⦃e : Eq K⦄ → K → ℕ → Dict K ℕ → Dict K ℕ
inc k n d = put k (or_default (get k d) 0 + n) d

unfoldable pub note : {K D : Type 0} ⦃e : Eq K⦄ → K → D → Dict K (List D) → Dict K (List D)
note k x d = put k (or_default (get k d) [] ++ x ∷ []) d

-- The sum of the samples of a counter, and of a gauge.
abbrev pub sum : List ℕ → ℕ
sum [] = 0
sum (n ∷ ns) = n + sum ns

unfoldable pub sum_of : List ℤ → ℤ
sum_of [] = pos 0
sum_of (z ∷ zs) = z +ℤ sum_of zs

-- `_collect_pool_stats`, of pools that report or raise.
unfoldable pub in_use : PoolStats → ℕ
in_use s = elim s.connections_in_use [
  | some n ↦ n
  | none ↦ or_default s.pool_size 0 - or_default s.pool_available 0
]

-- `stats.get("pool_size") or stats.get("connections_num") or 0`
unfoldable pub configured : PoolStats → ℕ
configured s =
    let size = or_default s.pool_size 0 in
    if nat_beq size 0 then or_default s.connections_num 0 else size

unfoldable pub collect_pool_stats : List (Option PoolStats) → ℕ × ℕ
collect_pool_stats [] = (0, 0)
collect_pool_stats (none ∷ pools) = collect_pool_stats pools
collect_pool_stats (some s ∷ pools) =
    let (active, total) = collect_pool_stats pools in (in_use s + active, configured s + total)

module _ {D : Type 0} where
  abbrev pub init : Metrics D
  init = record {
    available = false;
    requests_total = [];
    request_duration = [];
    in_progress = [];
    graph_nodes = 0;
    graph_edges = 0;
    content_generated = [];
    pipeline_runs = [];
    pipeline_duration = [];
    collector_docs = [];
    db_pool_active = 0;
    db_pool_total = 0;
    celery_queue_len = 0;
  }

  unfoldable pub setup : Bool → Metrics D → Metrics D
  setup installed m =
      if m.available
      then m
      else if installed
      then record init { available = true }
      else record m { available = false }

  unfoldable pub track_in_progress : String → String → ℤ → Metrics D → Metrics D
  track_in_progress method path delta m =
      let k : String × String = (method, path) in
      if m.available
      then record m {
        in_progress = put k (or_default (get k m.in_progress) (pos 0) +ℤ delta) m.in_progress;
      }
      else m

  unfoldable pub observe : String → String → ℕ → D → Metrics D → Metrics D
  unfolding inc note
  observe method path status duration m = if not m.available then m else record m {
    requests_total = inc ((method, path), status) 1 m.requests_total;
    request_duration = note (method, path) duration m.request_duration;
  }

  unfoldable pub set_graph_size : ℕ → ℕ → Metrics D → Metrics D
  set_graph_size nodes edges m =
      if m.available then record m { graph_nodes = nodes; graph_edges = edges } else m

  unfoldable pub inc_content : String → Bool → Metrics D → Metrics D
  unfolding inc
  inc_content platform passed m =
      if m.available
      then record m {
        content_generated =
            inc (platform, if passed then "passed" else "failed") 1 m.content_generated;
      }
      else m

  unfoldable pub observe_pipeline : String → String → D → Metrics D → Metrics D
  unfolding inc note
  observe_pipeline pipeline status duration m =
      if m.available
      then record m {
        pipeline_runs = inc (pipeline, status) 1 m.pipeline_runs;
        pipeline_duration = note pipeline duration m.pipeline_duration;
      }
      else m

  unfoldable pub inc_collector : String → String → ℕ → Metrics D → Metrics D
  unfolding inc
  inc_collector source status count m =
      if m.available && not (nat_beq count 0)
      then record m { collector_docs = inc (source, status) count m.collector_docs }
      else m

  -- `queue` is what `_collect_queue_length` gives.
  unfoldable pub update_dynamic : List (Option PoolStats) → ℕ → Metrics D → Metrics D
  update_dynamic pools queue m =
      if not m.available
      then m
      else let (active, total) = collect_pool_stats pools in
        record m { db_pool_active = active; db_pool_total = total; celery_queue_len = queue }

  unfoldable pub snapshot : Metrics D → Snapshot
  snapshot m =
      if not m.available
      then record {
        graph_nodes = 0;
        graph_edges = 0;
        http_requests_total = 0;
        http_requests_in_progress = pos 0;
        content_generated_total = 0;
        pipeline_runs_total = 0;
      }
      else record {
        graph_nodes = m.graph_nodes;
        graph_edges = m.graph_edges;
        http_requests_total = sum (values m.requests_total);
        http_requests_in_progress = sum_of (values m.in_progress);
        content_generated_total = sum (values m.content_generated);
        pipeline_runs_total = sum (values m.pipeline_runs);
      }

  -- The functions of the module: `_ensure` and the call on `METRICS`.
  unfoldable pub record_graph_size : Bool → ℕ → ℕ → Metrics D → Metrics D
  record_graph_size installed nodes edges m = set_graph_size nodes edges (setup installed m)

  unfoldable pub record_content_generated : Bool → String → Bool → Metrics D → Metrics D
  record_content_generated installed platform passed m =
      inc_content platform passed (setup installed m)

  unfoldable pub record_pipeline_run : Bool → String → String → D → Metrics D → Metrics D
  record_pipeline_run installed pipeline status duration m =
      observe_pipeline pipeline status duration (setup installed m)

  unfoldable pub record_collector : Bool → String → String → ℕ → Metrics D → Metrics D
  record_collector installed source status count m =
      inc_collector source status count (setup installed m)

  unfoldable pub metrics_snapshot : Bool → Metrics D → Metrics D × Snapshot
  metrics_snapshot installed m = let m' = setup installed m in (m', snapshot m')

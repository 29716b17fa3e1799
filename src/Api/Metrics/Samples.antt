-- ===== src/Api/Metrics/Samples.antt =====
-- The sums that the dashboard shows follow the calls that record.
use ligp_v.Prelude.{
  ℕ, ◌+◌, ◌≡◌, Bool, true, [], ◌∷◌, arith, if◌then◌else◌, String, or_default, Eq, string_eq, nat_eq,
  pair_eq,
}
use ligp_v.Dict.{Dict, get, put, values}
use ligp_v.Api.Metrics.{
  Metrics, inc, sum, setup, snapshot, set_graph_size, inc_content, observe, observe_pipeline,
  record_content_generated, record_pipeline_run, record_graph_size,
}

sum-put :
    {K : Type 0} ⦃e : Eq K⦄ (k : K) (n : ℕ) (d : Dict K ℕ)
    → sum (values (put k (or_default (get k d) 0 + n) d)) ≡ sum (values d) + n
unfolding get put
sum-put k n [] = omega arith
sum-put ⦃e⦄ k n ((j, v) ∷ d) = ground (arith, sum-put k n d)

pub sum-inc :
    {K : Type 0} ⦃e : Eq K⦄ (k : K) (n : ℕ) (d : Dict K ℕ)
    → sum (values (inc k n d)) ≡ sum (values d) + n
unfolding inc
sum-inc k n d = sum-put k n d

module _ {D : Type 0} where
  -- With the package installed, the dashboard's totals count each recorded content item and each
  -- recorded pipeline run once, whatever the labels, a request is counted by `observe` once, and the
  -- graph's size is the last one recorded.
  pub snapshot_lem :
      (m : Metrics D) (platform pipeline status method path : String) (passed : Bool) (d : D)
      (code nodes edges : ℕ)
      → m.available ≡ true
      → ((snapshot (record_content_generated true platform passed m)).content_generated_total
          ≡ (snapshot m).content_generated_total + 1)
        × ((snapshot (record_pipeline_run true pipeline status d m)).pipeline_runs_total
            ≡ (snapshot m).pipeline_runs_total + 1)
        × ((snapshot (observe method path code d m)).http_requests_total
            ≡ (snapshot m).http_requests_total + 1)
        × ((snapshot (record_graph_size true nodes edges m)).graph_nodes ≡ nodes)
        × ((snapshot (record_graph_size true nodes edges m)).graph_edges ≡ edges)
  unfolding snapshot record_content_generated record_pipeline_run record_graph_size setup
      inc_content observe_pipeline observe set_graph_size
  snapshot_lem m platform pipeline status method path passed d code nodes edges on = ground (
    arith,
    sum-put (platform, if passed then "passed" else "failed") 1 m.content_generated,
    sum-put (pipeline, status) 1 m.pipeline_runs,
    sum-put ((method, path), code) 1 m.requests_total,
  )

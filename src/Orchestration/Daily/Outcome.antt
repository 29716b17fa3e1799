-- ===== src/Orchestration/Daily/Outcome.antt =====
-- What a daily run returns and records.
use ligp_v.Prelude.{ℕ, ◌≡◌, ◌≤◌, ◌⊎◌, Bool, Option, none, some, List, String, length, All}
use ligp_v.Dict.{Dict}
use ligp_v.Graph.Weights.{nat_weighing}
use ligp_v.Processing.Deduplicator.{is_duplicate}
use ligp_v.Content.Blog.Budget.{FitsPlatform}
use ligp_v.Api.Metrics.{Metrics}
use ligp_v.Orchestration.Daily.{Env, Summary, unique_from}
use ligp_v.Orchestration.Realtime.{Document}
use ligp_v.Orchestration.Daily.Faults.{Fault}

-- A summary that adds up.
pub record AddsUp {C : Type 0} (documents : List Document) (top_k : ℕ) (s : Summary C)
    : Type 0 where
  pub all_documents : s.ingested ≡ length documents
  pub no_more_unique : s.unique ≤ s.ingested
  pub limit : s.selected ≤ top_k
  pub one_each : length s.generated ≡ s.selected
  pub fitting : All (λ p. FitsPlatform p.0) s.generated

abbrev deduplicated : {C : Type 0} → Env C → List Document → Option (List Document)
deduplicated env documents =
    unique_from (is_duplicate env.tokens env.normal env.hash64 env.hash env.content_hash)
      env.doc_key 0 documents env.dedup

module _ {C D : Type 0} (env : Env C) (installed : Bool) where
  -- How the implementation ends.
  abbrev Ends : List Document → String → ℕ → Metrics D × Option (Summary C) → Type 0
  Ends documents platform top_k r =
      ((m' : Metrics D) × (s : Summary C) × (r ≡ (m', some s)) × AddsUp documents top_k s)
      ⊎ ((m' : Metrics D) × (r ≡ (m', none)) × Fault env platform)

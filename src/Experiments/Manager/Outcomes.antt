-- ===== src/Experiments/Manager/Outcomes.antt =====
-- What `record_outcome` writes.
use ligp_v.Prelude.{
  ◌≡◌, ◌&&◌, some, List, [], ◌∷◌, ◌++◌, arith, if◌then◌else◌, String, or_default, string_eq, eq_iff,
  ◌==◌, ap,
}
use ligp_v.Dict.{Dict, get, put, get-put}
use ligp_v.Experiments.Manager.{AbTestManager, value, record_outcome}

module _ {M : Type 0} where
  -- The outcomes of a variant in an experiment.
  abbrev pub outcomes_of : String → String → AbTestManager M → List M
  outcomes_of e v m = or_default (get v (or_default (get e m.outcomes) [])) []

  recorded :
      (e v : String) (metric : M) (m m' : AbTestManager M)
      → record_outcome e v metric m ≡ value m'
      → (outcomes : Dict String (List M)) × (metrics : List M) × (get e m.outcomes ≡ some outcomes)
        × (get v outcomes ≡ some metrics)
        × (m'.outcomes ≡ put e (put v (metrics ++ metric ∷ []) outcomes) m.outcomes)
        × (m'.experiments ≡ m.experiments)
  unfolding record_outcome
  recorded e v metric m m' h = ground arith

  -- A successful `record_outcome` appends the metric to the outcomes of that variant in that
  -- experiment, and changes neither those of any other pair nor the experiments.
  pub outcomes_of-record_outcome :
      (e v f w : String) (metric : M) (m m' : AbTestManager M)
      → record_outcome e v metric m ≡ value m'
      → (outcomes_of f w m'
          ≡ (if e == f && v == w then outcomes_of f w m ++ metric ∷ [] else outcomes_of f w m))
        × (m'.experiments ≡ m.experiments)
  outcomes_of-record_outcome e v f w metric m m' h =
      let (outcomes, metrics, here, there, written, same) = recorded e v metric m m' h in
      (
        ground (
          arith,
          ap (get f) written,
          get-put e f (put v (metrics ++ metric ∷ []) outcomes) m.outcomes,
          get-put v w (metrics ++ metric ∷ []) outcomes,
          here,
          there,
          eq_iff e f,
          eq_iff v w,
        ),
        same,
      )

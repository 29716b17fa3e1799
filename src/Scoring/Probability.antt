-- ===== src/Scoring/Probability.antt =====
-- `ProbabilityModel` of scoring_engine/probability_model.py. The parameters of the posteriors are in
-- thousandths, with the priors of the fallback. The sampling and the log are left out.
pub mod Series
use ligp_v.Prelude.{
  ℕ, suc, ◌+◌, ◌-◌, ◌*◌, Bool, true, false, not, ◌||◌, Option, none, some, List, [], ◌∷◌, arith,
  if◌then◌else◌, String, string_eq, ltb, or_default,
}
use ligp_v.Prelude.Int.{ℤ, pos, negsuc}
use ligp_v.Compliance.Copyright.{Fraction}
use ligp_v.Dict.{Dict, get, put, member}

pub record Beta : Type 0 where
  pub alpha : ℕ
  pub beta : ℕ

abbrev pub Posterior : Type 0
Posterior = Dict String Beta

abbrev pub default_prior : Beta
default_prior = record { alpha = 1000; beta = 99000 }

abbrev pub fallback_priors : Posterior
fallback_priors =
    ("blog", record { alpha = 2000; beta = 98000 })
    ∷ ("youtube", record { alpha = 4000; beta = 96000 })
    ∷ ("instagram", record { alpha = 3500; beta = 96500 })
    ∷ ("newsletter", record { alpha = 5000; beta = 95000 })
    ∷ ("shorts", record { alpha = 4500; beta = 95500 })
    ∷ []

pub data Result {ℓ} (A : Type ℓ) : Type ℓ where
  returned : A → Result A
  value_error : Result A

-- `_params`, which enters the default for a platform that is not there.
unfoldable pub params : String → Posterior → Posterior × Beta
params platform ps = elim (get platform ps) [
  | some b ↦ (ps, b)
  | none ↦ (put platform default_prior ps, default_prior)
]

-- `params["alpha"] += clicks` and `params["beta"] += impressions - clicks`
abbrev pub grown : ℕ → ℕ → Beta → Beta
grown clicks impressions b = record {
  alpha = b.alpha + 1000 * clicks;
  beta = b.beta + 1000 * (impressions - clicks);
}

unfoldable pub update_ctr : String → ℤ → ℤ → Posterior → Result Posterior
update_ctr platform (negsuc n) impressions ps = value_error
update_ctr platform (pos clicks) (negsuc n) ps = value_error
update_ctr platform (pos clicks) (pos impressions) ps =
    let found = params platform ps in
    if ltb impressions clicks
    then value_error
    else returned (put platform (grown clicks impressions found.1) found.0)

-- `get_ctr_estimate`: the mean and the variance.
unfoldable pub get_ctr_estimate : String → Posterior → Posterior × Fraction × Fraction
get_ctr_estimate platform ps =
    let found = params platform ps in
    let a = found.1.alpha in
    let b = found.1.beta in
    let total = a + b in
    (
      found.0,
      record { num = a; den = total },
      record { num = 1000 * (a * b); den = total * total * (total + 1000) },
    )

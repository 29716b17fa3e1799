-- ===== src/Scoring/Probability/Series.antt =====
-- Updates in series.
use ligp_v.Prelude.{
  ℕ, ◌+◌, ◌-◌, ◌*◌, ◌≡◌, refl, ◌⊎◌, List, [], ◌∷◌, arith, if◌then◌else◌, String, string_eq, ◌==◌,
  ltb, or_default, eq_iff, Bool-cases, Option-cases, inl, inr,
}
use ligp_v.Dict.{get, get-put}
use ligp_v.Prelude.Int.{ℤ, pos, negsuc}
use ligp_v.Scoring.Probability.{
  Beta, Posterior, Result, returned, value_error, params, update_ctr, default_prior, grown,
}

-- A platform with its clicks and its impressions.
abbrev pub Report : Type 0
Report = String × ℤ × ℤ

-- What a caller that ignores errors has after a series of reports.
abbrev pub updated : List Report → Posterior → Posterior
updated [] ps = ps
updated (r ∷ rs) ps = elim (update_ctr r.0 r.1 r.2 ps) [
  | returned after ↦ updated rs after
  | value_error ↦ updated rs ps
]

abbrev pub prior : String → Posterior → Beta
prior platform ps = or_default (get platform ps) default_prior

-- The clicks and the other impressions that valid reports have of a platform.
abbrev pub hits : ℤ → ℤ → ℕ × ℕ
hits (negsuc n) impressions = (0, 0)
hits (pos clicks) (negsuc n) = (0, 0)
hits (pos clicks) (pos impressions) =
    if ltb impressions clicks then (0, 0) else (clicks, impressions - clicks)

abbrev pub clicks_of : String → List Report → ℕ
clicks_of platform [] = 0
clicks_of platform (r ∷ rs) =
    (if r.0 == platform then (hits r.1 r.2).0 else 0) + clicks_of platform rs

abbrev pub misses_of : String → List Report → ℕ
misses_of platform [] = 0
misses_of platform (r ∷ rs) =
    (if r.0 == platform then (hits r.1 r.2).1 else 0) + misses_of platform rs

-- One update, for any platform.
abbrev step : Report → Posterior → Posterior
step r ps = elim (update_ctr r.0 r.1 r.2 ps) [ returned after ↦ after | value_error ↦ ps ]

updated-step :
    (r : Report) (rs : List Report) (ps : Posterior) → updated (r ∷ rs) ps ≡ updated rs (step r ps)
updated-step r rs ps = elim (Result-cases (update_ctr r.0 r.1 r.2 ps)) [
  | inl bad ↦ ground arith
  | inr (after, good) ↦ ground arith
]
  where
    Result-cases :
        (x : Result Posterior) → (x ≡ value_error) ⊎ ((after : Posterior) × (x ≡ returned after))
    Result-cases (returned after) = inr (after, refl)
    Result-cases value_error = inl refl

prior-params : (platform q : String) (ps : Posterior) → prior q (params platform ps).0 ≡ prior q ps
unfolding params
prior-params platform q ps = elim (Option-cases (get platform ps)) [
  | inl new ↦ ground (arith, get-put platform q default_prior ps, eq_iff platform q)
  | inr (b, there) ↦ ground arith
]

params-prior : (platform : String) (ps : Posterior) → (params platform ps).1 ≡ prior platform ps
unfolding params
params-prior platform ps = elim (Option-cases (get platform ps)) [
  | inl new ↦ ground arith
  | inr (b, there) ↦ ground arith
]

-- What one report adds.
step_lem :
    (platform q : String) (clicks impressions : ℤ) (ps : Posterior)
    → ((prior q (step (platform, clicks, impressions) ps)).alpha
        ≡ (prior q ps).alpha + 1000 * (if platform == q then (hits clicks impressions).0 else 0))
      × ((prior q (step (platform, clicks, impressions) ps)).beta
          ≡ (prior q ps).beta + 1000 * (if platform == q then (hits clicks impressions).1 else 0))
unfolding update_ctr
step_lem platform q (negsuc n) impressions ps = ground arith
step_lem platform q (pos c) (negsuc n) ps = ground arith
step_lem platform q (pos c) (pos m) ps = elim (Bool-cases (ltb m c)) [
  | inl bad ↦ rw bad (ground arith)
  | inr good ↦
      let wrote = get-put platform q (grown c m (params platform ps).1) (params platform ps).0 in
      elim (Bool-cases (platform == q)) [
        | inl same ↦
            let this : platform ≡ q = (eq_iff platform q).0 same in
            ground (arith, wrote, params-prior platform ps, this)
        | inr other ↦ ground (arith, wrote, prior-params platform q ps)
      ]
]

-- After any reports, the ones with impossible counts being refused, the posterior of a platform has
-- grown by its clicks and by its impressions without one, whatever the order of the reports.
pub updated_lem :
    (rs : List Report) (platform : String) (ps : Posterior)
    → ((prior platform (updated rs ps)).alpha
        ≡ (prior platform ps).alpha + 1000 * clicks_of platform rs)
      × ((prior platform (updated rs ps)).beta
          ≡ (prior platform ps).beta + 1000 * misses_of platform rs)
updated_lem [] platform ps = (omega arith, omega arith)
updated_lem (r ∷ rs) platform ps =
    let (a, b) = updated_lem rs platform (step r ps) in
    let (c, d) = step_lem r.0 platform r.1 r.2 ps in
    rw (updated-step r rs ps) (omega (arith, a, c), omega (arith, b, d))

-- ===== src/Experiments/Manager/Assignment.antt =====
-- Which unit gets which variant.
use ligp_v.Prelude.{
  ℕ, ◌+◌, ◌≤◌, ◌<◌, ◌≡◌, refl, true, some, List, [], ◌∷◌, ◌++◌, arith, String, length, last_of,
  string_eq, contains, eq_iff, ap, ◌∙◌, Option-cases, inl, inr, sym,
}
use ligp_v.Dict.{get, get-put_self}
use ligp_v.Experiments.Manager.{
  Experiment, AbTestManager, value, sum, pick, assign_variant, create_experiment,
}

-- The variants and shares before the one in question.
pick_at :
    (bucket start : ℕ) (before after : List String) (shares later : List ℕ) (v : String) (share : ℕ)
    → length before ≡ length shares
    → start + sum shares ≤ bucket
    → bucket < start + sum shares + share
    → pick bucket start (before ++ v ∷ after) (shares ++ share ∷ later) ≡ some v
unfolding pick
pick_at bucket start [] after [] later v share l h k = ground arith
pick_at bucket start [] after (s ∷ shares) later v share l h k = absurd (omega (arith, l))
pick_at bucket start (w ∷ before) after [] later v share l h k = absurd (omega (arith, l))
pick_at bucket start (w ∷ before) after (s ∷ shares) later v share l h k =
    ground (arith, pick_at bucket (start + s) before after shares later v share)

pick-In :
    (bucket start : ℕ) (variants : List String) (split : List ℕ) (v : String)
    → pick bucket start variants split ≡ some v
    → contains variants v ≡ true
unfolding pick
pick-In bucket start [] split v h = ground arith
pick-In bucket start (w ∷ variants) [] v h = ground arith
pick-In bucket start (w ∷ variants) (s ∷ split) v h =
    ground (arith, pick-In bucket (start + s) variants split v, eq_iff w v)

last_of-In : (w : String) (ws : List String) → contains (w ∷ ws) (last_of w ws) ≡ true
last_of-In w [] = ground (arith, eq_iff w w)
last_of-In w (x ∷ ws) = ground (arith, last_of-In x ws)

module _ {M : Type 0} (hash : String → String → ℕ) (experiment_id unit_id : String)
    (m : AbTestManager M) where
  -- A unit gets the variant in whose section of the line its hash falls: between the sum of the
  -- shares before that variant and that sum with its own share.
  pub assign_variant_lem :
      (exp : Experiment) (before after : List String) (shares later : List ℕ) (v : String)
      (share : ℕ)
      → get experiment_id m.experiments ≡ some exp
      → exp.variants ≡ before ++ v ∷ after
      → exp.traffic_split ≡ shares ++ share ∷ later
      → length before ≡ length shares
      → sum shares ≤ hash experiment_id unit_id
      → hash experiment_id unit_id < sum shares + share
      → assign_variant hash experiment_id unit_id m ≡ value v
  unfolding assign_variant
  assign_variant_lem exp before after shares later v share found vs ss l h k =
      let at =
        pick_at (hash experiment_id unit_id) 0 before after shares later v share l (omega arith)
          (omega arith) in
      rw (found, vs, ss, at, assign_variant)

module _ {M : Type 0} where
  assigned :
      (hash : String → String → ℕ) (id unit_id : String) (m : AbTestManager M) (exp : Experiment)
      (first : String) (others : List String)
      → get id m.experiments ≡ some exp
      → exp.variants ≡ first ∷ others
      → (v : String) × (assign_variant hash id unit_id m ≡ value v)
        × (contains exp.variants v ≡ true)
  unfolding assign_variant
  assigned hash id unit_id m exp first others found is =
      elim (Option-cases (pick (hash id unit_id) 0 exp.variants exp.traffic_split)) [
        | inr (v, e) ↦ (
          v,
          rw (found, e, assign_variant),
          pick-In (hash id unit_id) 0 exp.variants exp.traffic_split v e,
        )
        | inl e ↦ (
          last_of first others,
          rw (found, e, is, assign_variant),
          rw is (last_of-In first others),
        )
      ]

  created :
      (whole tolerance : ℕ) (exp_id now name : String) (variants : List String) (split : List ℕ)
      (m m' : AbTestManager M) (id : String)
      → create_experiment whole tolerance exp_id now name variants split m ≡ value (m', id)
      → (exp : Experiment) × (get id m'.experiments ≡ some exp)
        × (exp.variants ≡ variants)
        × (first : String) × (others : List String) × (variants ≡ first ∷ others)
  unfolding create_experiment
  created whole tolerance exp_id now name [] split m m' id h = absurd (ground arith)
  created whole tolerance exp_id now name (v ∷ variants) split m m' id h =
      let exp : Experiment = record {
        experiment_id = exp_id;
        name = name;
        variants = v ∷ variants;
        traffic_split = split;
        status = "running";
        created_at = now;
      } in
      (exp, ground (arith, get-put_self exp_id exp m.experiments), refl, v, variants, refl)

  -- Once `create_experiment` has accepted an experiment, every unit is assigned one of its variants.
  pub assign_variant-create_experiment :
      (hash : String → String → ℕ) (whole tolerance : ℕ) (exp_id now name unit_id : String)
      (variants : List String) (split : List ℕ) (m m' : AbTestManager M) (id : String)
      → create_experiment whole tolerance exp_id now name variants split m ≡ value (m', id)
      → (v : String) × (assign_variant hash id unit_id m' ≡ value v) × (contains variants v ≡ true)
  assign_variant-create_experiment hash whole tolerance exp_id now name unit_id variants split m m'
        id h =
      let (exp, found, same, first, others, split_up) =
        created whole tolerance exp_id now name variants split m m' id h in
      let (v, e, c) = assigned hash id unit_id m' exp first others found (same ∙ split_up) in
      (v, e, ap (λ vs. contains vs v) (sym same) ∙ c)

-- ===== src/Experiments/Manager.antt =====
-- experiments/ab_test_manager.py and experiments/variant_router.py. Shares and the hashed unit are
-- whole numbers of one unit, of which `whole` make 1.0 and `tolerance` the 1e-6 of the check, so that
-- the sums of the code are exact; a share is not negative. `hash` is the SHA-256 fraction, and outcomes
-- are values that are only collected.
pub mod Assignment
pub mod Outcomes
use ligp_v.Prelude.{
  ℕ, ◌+◌, ◌-◌, Bool, true, false, not, ◌||◌, Option, none, some, List, [], ◌∷◌, ◌++◌, arith,
  if◌then◌else◌, String, length, leb, ltb, nat_beq, last_of, string_eq, pair_eq, ◌==◌,
}
use ligp_v.Dict.{Dict, get, put, member}

pub record Experiment : Type 0 where
  pub experiment_id : String
  pub name : String
  pub variants : List String
  pub traffic_split : List ℕ
  pub status : String
  pub created_at : String

pub record AbTestManager (M : Type 0) : Type 0 where
  pub experiments : Dict String Experiment
  pub outcomes : Dict String (Dict String (List M))

pub data Error : Type 0 where
  value_error key_error index_error : Error

pub data Result {ℓ} (A : Type ℓ) : Type ℓ where
  value : A → Result A
  error : Error → Result A

abbrev pub sum : List ℕ → ℕ
sum [] = 0
sum (n ∷ ns) = n + sum ns

-- `{v: [] for v in variants}`
abbrev pub no_outcomes : {M : Type 0} → List String → Dict String (List M) → Dict String (List M)
no_outcomes [] d = d
no_outcomes (v ∷ variants) d = no_outcomes variants (put v [] d)

-- The loop of `assign_variant`, from the shares so far; `none` if no share reaches the bucket.
unfoldable pub pick : ℕ → ℕ → List String → List ℕ → Option String
pick bucket cumulative (v ∷ variants) (share ∷ split) =
    let rest = pick bucket (cumulative + share) variants split in
    if ltb bucket (cumulative + share) then some v else rest
pick bucket cumulative [] split = none
pick bucket cumulative (v ∷ variants) [] = none

module _ {M : Type 0} where
  unfoldable pub create_experiment :
      ℕ
      → ℕ
      → String
      → String
      → String
      → List String
      → List ℕ
      → AbTestManager M
      → Result (AbTestManager M × String)
  create_experiment whole tolerance exp_id now name variants traffic_split m =
      if not (nat_beq (length variants) (length traffic_split))
      then error value_error
      else if ltb tolerance ((sum traffic_split - whole) + (whole - sum traffic_split))
      then error value_error
      else if ltb (length variants) 2
      then error value_error
      else value (
        record {
          experiments =
              put exp_id
                (record {
                  experiment_id = exp_id;
                  name = name;
                  variants = variants;
                  traffic_split = traffic_split;
                  status = "running";
                  created_at = now;
                })
                m.experiments;
          outcomes = put exp_id (no_outcomes variants []) m.outcomes;
        },
        exp_id,
      )

  -- `hash` is `_hash_unit`. An experiment without variants would be an IndexError.
  unfoldable pub assign_variant :
      (String → String → ℕ) → String → String → AbTestManager M → Result String
  assign_variant hash experiment_id unit_id m = elim (get experiment_id m.experiments) [
    | none ↦ error key_error
    | some exp ↦ elim (pick (hash experiment_id unit_id) 0 exp.variants exp.traffic_split) [
      | some variant ↦ value variant
      | none ↦ elim exp.variants [ [] ↦ error index_error | v ∷ vs ↦ value (last_of v vs) ]
    ]
  ]

  unfoldable pub record_outcome : String → String → M → AbTestManager M → Result (AbTestManager M)
  record_outcome experiment_id variant metric m = elim (get experiment_id m.outcomes) [
    | none ↦ error key_error
    | some outcomes ↦ elim (get variant outcomes) [
      | none ↦ error value_error
      | some metrics ↦ value (record m {
        outcomes = put experiment_id (put variant (metrics ++ metric ∷ []) outcomes) m.outcomes;
      })
    ]
  ]

-- `VariantRouter`, with handlers of any kind.
pub record VariantRouter (M H : Type 0) : Type 0 where
  pub manager : AbTestManager M
  pub handlers : Dict (String × String) H

module _ {M H : Type 0} where
  unfoldable pub register : String → String → H → VariantRouter M H → VariantRouter M H
  register experiment_id variant handler r = record r {
    handlers = put (experiment_id, variant) handler r.handlers;
  }

  unfoldable pub route : (String → String → ℕ) → String → String → VariantRouter M H → Result H
  route hash experiment_id unit_id r = elim (assign_variant hash experiment_id unit_id r.manager) [
    | error e ↦ error e
    | value variant ↦ elim (get (experiment_id, variant) r.handlers) [
      | none ↦ error key_error
      | some handler ↦ value handler
    ]
  ]

  unfoldable pub wrap :
      (String → String → ℕ) → H → H → String → String → VariantRouter M H → Result H
  wrap hash func_a func_b experiment_id unit_id r =
      elim (assign_variant hash experiment_id unit_id r.manager) [
        | error e ↦ error e
        | value variant ↦ value (if variant == "A" then func_a else func_b)
      ]

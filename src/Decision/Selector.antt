-- ===== src/Decision/Selector.antt =====
-- decision_engine/selector.py. The values of `_thompson_value` (a Beta draw times the score) are the
-- parameter `value`, of the number of the call and the candidate; they are only compared. Counts and
-- quotas are natural numbers.
pub mod Diversity
use ligp_v.Prelude.{
  ℕ, zero, suc, ◌+◌, Bool, true, false, not, ◌||◌, Option, none, some, List, [], ◌∷◌, arith,
  if◌then◌else◌, String, length, leb, or_default, take, string_eq,
}
use ligp_v.Dict.{Dict, get, put}
use ligp_v.Graph.Weights.{Weighing}

-- The keys of a candidate that the topic is taken from, and its score entries.
pub record Candidate (W : Type 0) : Type 0 where
  pub topic : Option String
  pub topic_id : Option String
  pub node_id : Option String
  pub success : Option W
  pub fail : Option W
  pub final_score : Option W
  pub score : Option W

module _ {W : Type 0} where
  -- `str(c.get("topic", c.get("topic_id", c.get("node_id", ""))))`
  abbrev pub topic_of : Candidate W → String
  topic_of c = or_default c.topic (or_default c.topic_id (or_default c.node_id ""))

  -- The loop of `enforce_diversity`, from the counts so far.
  unfoldable pub diversity_loop : ℕ → Dict String ℕ → List (Candidate W) → List (Candidate W)
  diversity_loop max_same_topic counts [] = []
  diversity_loop max_same_topic counts (c ∷ selected) =
      let seen = or_default (get (topic_of c) counts) 0 in
      elim (leb max_same_topic seen) [
        | true ↦ diversity_loop max_same_topic counts selected
        | false ↦ c ∷ diversity_loop max_same_topic (put (topic_of c) (seen + 1) counts) selected
      ]

  unfoldable pub enforce_diversity : List (Candidate W) → ℕ → List (Candidate W)
  enforce_diversity selected max_same_topic = diversity_loop max_same_topic [] selected

  -- `_platform_quota()` is the dictionary.
  unfoldable pub apply_quota : Dict String ℕ → List (Candidate W) → String → List (Candidate W)
  apply_quota platform_quota selected platform = elim (get platform platform_quota) [
    | none ↦ selected
    | some quota ↦ take quota selected
  ]

  -- The keys of `sorted`, computed once for each candidate in order.
  unfoldable pub scored : (ℕ → Candidate W → W) → ℕ → List (Candidate W) → List (W × Candidate W)
  scored value call [] = []
  scored value call (c ∷ candidates) = (value call c, c) ∷ scored value (call + 1) candidates

  abbrev pub candidates_of : List (W × Candidate W) → List (Candidate W)
  candidates_of [] = []
  candidates_of ((w, c) ∷ rest) = c ∷ candidates_of rest

  module _ ⦃o : Weighing W⦄ where
    -- `sorted(..., reverse=True)`: the greatest key first, equal keys in their old order.
    unfoldable pub insert_ranked : W × Candidate W → List (W × Candidate W) → List (W × Candidate W)
    insert_ranked x [] = x ∷ []
    insert_ranked x (y ∷ ys) =
        let rest = insert_ranked x ys in if o.less y.0 x.0 then x ∷ y ∷ ys else y ∷ rest

    unfoldable pub sort_loop :
        List (W × Candidate W) → List (W × Candidate W) → List (W × Candidate W)
    sort_loop sorted [] = sorted
    sort_loop sorted (x ∷ xs) = sort_loop (insert_ranked x sorted) xs

    unfoldable pub select :
        (ℕ → Candidate W → W)
        → Dict String ℕ
        → ℕ
        → List (Candidate W)
        → String
        → ℕ
        → List (Candidate W)
    select value platform_quota max_same_topic ranked_candidates platform n =
        if leb n 0 || leb (length ranked_candidates) 0
        then []
        else let ordered = candidates_of (sort_loop [] (scored value 0 ranked_candidates)) in
          let diverse = enforce_diversity ordered max_same_topic in
          let limited = apply_quota platform_quota diverse platform in take n limited

-- ===== src/Scoring/Ranking.antt =====
-- `Ranker` of scoring_engine/ranking.py, over an interface of floats. `rank` writes the final score into
-- the candidates that it is given; here it returns them.
pub mod Order
use ligp_v.Prelude.{
  ℕ, Bool, true, false, not, Option, none, some, List, [], ◌∷◌, arith, if◌then◌else◌, String, take,
  or_default,
}
use ligp_v.Prelude.Sorting.{sort_by}
use ligp_v.Graph.Weights.{Weighing}

pub record Floats (W : Type 0) : Type 0 where
  pub nought : W
  pub add : W → W → W
  pub sub : W → W → W
  pub mul : W → W → W
  pub div : W → W → W

-- The keys of a candidate that are read, and the one that is written.
pub record Candidate (W : Type 0) : Type 0 where
  pub node_id : String
  pub score : Option W
  pub graph_score : Option W
  pub revenue_score : Option W
  pub probability_score : Option W
  pub final_score : Option W

pub record Ranker (W : Type 0) : Type 0 where
  pub graph : W
  pub revenue : W
  pub probability : W
  pub min_graph_score : W

module _ {W : Type 0} ⦃o : Weighing W⦄ where
  -- `min(values)` and `max(values)` of a list that is not empty.
  unfoldable pub least_from : W → List W → W
  least_from v [] = v
  least_from v (x ∷ xs) = least_from (if o.less x v then x else v) xs

  unfoldable pub most_from : W → List W → W
  most_from v [] = v
  most_from v (x ∷ xs) = most_from (if o.less v x then x else v) xs

module _ {W : Type 0} ⦃f : Floats W⦄ where
  unfoldable pub scaled : W → W → List W → List W
  scaled lo hi [] = []
  scaled lo hi (v ∷ vs) = f.div (f.sub v lo) (f.sub hi lo) ∷ scaled lo hi vs

  unfoldable pub noughts : List W → List W
  noughts [] = []
  noughts (v ∷ vs) = f.nought ∷ noughts vs

  -- `float(c.get("score", c.get("graph_score", 0.0)))` and the two others.
  unfoldable pub graph_of : Candidate W → W
  graph_of c = or_default c.score (or_default c.graph_score f.nought)

  unfoldable pub column : (Candidate W → W) → List (Candidate W) → List W
  column key [] = []
  column key (c ∷ cs) = key c ∷ column key cs

  -- The loop that writes the blended scores.
  unfoldable pub blend :
      Ranker W → List W → List W → List W → List (Candidate W) → List (Candidate W)
  blend r (g ∷ gs) (v ∷ vs) (p ∷ ps) (c ∷ cs) =
      record c {
        final_score =
            some (f.add (f.add (f.mul r.graph g) (f.mul r.revenue v)) (f.mul r.probability p));
      }
      ∷ blend r gs vs ps cs
  blend r gs vs ps cs = cs

module _ {W : Type 0} ⦃o : Weighing W⦄ ⦃f : Floats W⦄ where
  -- `_normalize`; `hi == lo` is that `lo` is not less.
  unfoldable pub normalize : List W → List W
  normalize [] = []
  normalize (v ∷ vs) =
      let lo = least_from v vs in
      let hi = most_from v vs in if o.less lo hi then scaled lo hi (v ∷ vs) else noughts (v ∷ vs)

  unfoldable pub blended : Ranker W → List (Candidate W) → List (Candidate W)
  blended r candidates =
      blend r (normalize (column graph_of candidates))
        (normalize (column (λ c. or_default c.revenue_score f.nought) candidates))
        (normalize (column (λ c. or_default c.probability_score f.nought) candidates)) candidates

  unfoldable pub higher : Candidate W → Candidate W → Bool
  higher a b = o.less (or_default b.final_score f.nought) (or_default a.final_score f.nought)

  unfoldable pub rank : Ranker W → List (Candidate W) → List (Candidate W)
  rank r candidates = sort_by higher (blended r candidates)

  unfoldable pub filter_below_threshold : Ranker W → List (Candidate W) → List (Candidate W)
  filter_below_threshold r [] = []
  filter_below_threshold r (c ∷ cs) =
      let rest = filter_below_threshold r cs in
      if o.less (graph_of c) r.min_graph_score then rest else c ∷ rest

module _ {W : Type 0} where
  unfoldable pub top_k : List (Candidate W) → ℕ → List (Candidate W)
  top_k ranked k = take k ranked

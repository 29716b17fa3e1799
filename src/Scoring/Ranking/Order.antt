-- ===== src/Scoring/Ranking/Order.antt =====
-- The order of a ranking, and what it keeps.
use ligp_v.Prelude.{
  ℕ, ◌+◌, ◌≡◌, refl, ◌∙◌, ap, true, false, List, [], ◌∷◌, arith, String, or_default,
}
use ligp_v.Prelude.Sorting.{sum_of, sum-sort_by, IsSorted, sort_by-IsSorted}
use ligp_v.Graph.Weights.{Weighing}
use ligp_v.Scoring.Ranking.{Floats, Candidate, Ranker, blend, blended, higher, rank}

module _ {W : Type 0} ⦃f : Floats W⦄ where
  -- Blending changes no more than the final scores.
  sum-blend :
      (count : String → ℕ) (r : Ranker W) (gs vs ps : List W) (cs : List (Candidate W))
      → sum_of (λ c. count c.node_id) (blend r gs vs ps cs) ≡ sum_of (λ c. count c.node_id) cs
  unfolding blend
  sum-blend count r (g ∷ gs) (v ∷ vs) (p ∷ ps) (c ∷ cs) =
      ap (λ n. count c.node_id + n) (sum-blend count r gs vs ps cs)
  sum-blend count r [] vs ps cs = refl
  sum-blend count r (g ∷ gs) [] ps cs = refl
  sum-blend count r (g ∷ gs) (v ∷ vs) [] cs = refl
  sum-blend count r (g ∷ gs) (v ∷ vs) (p ∷ ps) [] = refl

module _ {W : Type 0} ⦃o : Weighing W⦄ ⦃f : Floats W⦄ where
  higher_asym : (a b : Candidate W) → higher a b ≡ true → higher b a ≡ false
  unfolding higher
  higher_asym a b h =
      let v = or_default a.final_score f.nought in
      let w = or_default b.final_score f.nought in
      ground (arith, o.less_trans w v w, o.less_irrefl w)

  higher_trans :
      (a b c : Candidate W) → higher b a ≡ false → higher c b ≡ false → higher c a ≡ false
  unfolding higher
  higher_trans a b c h k =
      let u = or_default a.final_score f.nought in
      let v = or_default b.final_score f.nought in
      let w = or_default c.final_score f.nought in
      ground (arith, o.less_total u v, o.less_total v w, o.less_trans v u w, o.less_trans u w v)

  -- A ranking has the candidates that were given, each as often as before, in falling order of their
  -- final scores.
  rank_lem :
      (r : Ranker W) (candidates : List (Candidate W))
      → IsSorted higher (rank r candidates)
        × ((count : String → ℕ)
            → sum_of (λ c. count c.node_id) (rank r candidates)
              ≡ sum_of (λ c. count c.node_id) candidates)
  unfolding rank blended
  rank_lem r candidates = (
    sort_by-IsSorted higher higher_asym higher_trans (blended r candidates),
    λ count.
        sum-sort_by higher (λ c. count c.node_id) (blended r candidates)
        ∙ sum-blend count r _ _ _ candidates,
  )

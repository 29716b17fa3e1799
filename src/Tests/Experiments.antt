-- ===== src/Tests/Experiments.antt =====
-- An experiment with three shares of a line of ten.
use ligp_v.Prelude.{ℕ, ◌≡◌, refl, List, [], ◌∷◌, arith, String, string_eq}
use ligp_v.Dict.{get, put}
use ligp_v.Experiments.Manager.{
  Experiment, AbTestManager, value, create_experiment, assign_variant, record_outcome,
}
use ligp_v.Experiments.Manager.Assignment.{assign_variant_lem}

abbrev variants : List String
variants = "A" ∷ "B" ∷ "C" ∷ []

abbrev split : List ℕ
split = 5 ∷ 3 ∷ 2 ∷ []

abbrev hash : String → String → ℕ
hash e u = 6

abbrev nothing : AbTestManager ℕ
nothing = record { experiments = []; outcomes = [] }

abbrev experiment : Experiment
experiment = record {
  experiment_id = "e1";
  name = "title";
  variants = variants;
  traffic_split = split;
  status = "running";
  created_at = "t";
}

abbrev running : AbTestManager ℕ
running = record {
  experiments = ("e1", experiment) ∷ [];
  outcomes = ("e1", ("A", []) ∷ ("B", []) ∷ ("C", []) ∷ []) ∷ [];
}

abbrev measured : AbTestManager ℕ
measured = record running { outcomes = ("e1", ("A", []) ∷ ("B", 7 ∷ []) ∷ ("C", []) ∷ []) ∷ [] }

created : create_experiment 10 0 "e1" "t" "title" variants split nothing ≡ value (running, "e1")
unfolding create_experiment put
created = refl

recorded : record_outcome "e1" "B" 7 running ≡ value measured
unfolding record_outcome get put
recorded = refl

assign_variant_lem_example : assign_variant hash "e1" "u1" running ≡ value "B"
unfolding get
assign_variant_lem_example =
    assign_variant_lem hash "e1" "u1" running experiment ("A" ∷ []) ("C" ∷ []) (5 ∷ []) (2 ∷ []) "B"
      3 refl refl refl refl (omega arith) (omega arith)

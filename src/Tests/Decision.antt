-- ===== src/Tests/Decision.antt =====
-- A selection on concrete candidates.
use ligp_v.Prelude.{ℕ, ◌≤◌, none, some, List, [], ◌∷◌, String, length, string_eq}
use ligp_v.Dict.{Dict, get}
use ligp_v.Graph.Weights.{nat_weighing}
use ligp_v.Decision.Selector.{Candidate, select}
use ligp_v.Decision.Selector.Diversity.{count, select_limits}

abbrev candidate : String → ℕ → Candidate ℕ
candidate topic score = record {
  topic = some topic;
  topic_id = none;
  node_id = none;
  success = none;
  fail = none;
  final_score = some score;
  score = none;
}

abbrev ranked : List (Candidate ℕ)
ranked = candidate "music" 5 ∷ candidate "music" 4 ∷ candidate "film" 3 ∷ candidate "music" 2 ∷ []

abbrev value : ℕ → Candidate ℕ → ℕ
value call c = call

abbrev quotas : Dict String ℕ
quotas = ("blog", 3) ∷ []

select_limits_example :
    (length (select value quotas 2 ranked "blog" 5) ≤ 3)
    × (count "music" (select value quotas 2 ranked "blog" 5) ≤ 2)
unfolding get
select_limits_example = select_limits value quotas 2 ranked "blog" "music" 5

-- ===== src/Tests/Admin.antt =====
-- The dashboard over a seed of two nodes and two edges, with whole-number weights.
use ligp_v.Prelude.{ℕ, none, some, [], ◌∷◌}
use ligp_v.Graph.Weights.{nat_weighing}
use ligp_v.Api.Admin.{GraphData}

abbrev seed : GraphData ℕ
seed = record {
  nodes =
      record { id = some "a"; name = none; type = some "topic"; weight = none }
      ∷ record { id = some "b"; name = some (some "B"); type = none; weight = some 3 }
      ∷ [];
  edges =
      record {
        from_node = some "a";
        to_node = some "b";
        relation_type = some "monetizes_via";
        weight = some 3;
      }
      ∷ record {
        from_node = some "b";
        to_node = some "a";
        relation_type = some "monetizes_via";
        weight = some 5;
      }
      ∷ [];
}

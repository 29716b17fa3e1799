-- ===== src/Tests/Paths.antt =====
-- Costs as whole numbers with infinity, and the search over them on a small graph.
use ligp_v.Prelude.{
  ℕ, ◌+◌, ◌/◌, ◌≡◌, refl, Bool, true, false, Option, none, some, List, String, arith, ltb,
}
use ligp_v.Dict.{get}
use ligp_v.Graph.Store.{get_node}
use ligp_v.Graph.Query.{found}
use ligp_v.Graph.Shortest.{Costs, Inverse, shortest_path}
use ligp_v.Graph.Shortest.Answers.{IsShortest, shortest_path_lem}
use ligp_v.Tests.Graph.{node, linked}

abbrev finite_less : Option ℕ → Option ℕ → Bool
finite_less none b = false
finite_less (some m) none = true
finite_less (some m) (some n) = ltb m n

abbrev sum_of : Option ℕ → Option ℕ → Option ℕ
sum_of none b = none
sum_of (some m) none = none
sum_of (some m) (some n) = some (m + n)

less_irrefl : (a : Option ℕ) → finite_less a a ≡ false
less_irrefl a = ground arith

less_trans :
    (a b c : Option ℕ) → finite_less a b ≡ true → finite_less b c ≡ true → finite_less a c ≡ true
less_trans a b c p q = ground arith

less_total : (a b : Option ℕ) → finite_less a b ≡ false → finite_less b a ≡ false → a ≡ b
less_total a b p q = ground arith

sum_mono :
    (a b s : Option ℕ) → finite_less b a ≡ false → finite_less (sum_of b s) (sum_of a s) ≡ false
sum_mono a b s h = ground arith

sum_grows : (a s : Option ℕ) → finite_less (sum_of a s) a ≡ false
sum_grows a s = ground arith

nothing_less : (a : Option ℕ) → finite_less a (some 0) ≡ false
nothing_less a = ground arith

instance abbrev costs : Costs (Option ℕ)
costs = record {
  cost_order = record {
    less = finite_less;
    less_irrefl = less_irrefl;
    less_trans = less_trans;
    less_total = less_total;
  };
  nought = some 0;
  inf = none;
  plus = sum_of;
  plus_mono = sum_mono;
  plus_grows = sum_grows;
  nought_least = nothing_less;
  inf_greatest = λ a. refl;
  nought_finite = refl;
}

instance abbrev shares : Inverse ℕ (Option ℕ)
shares = record { positive = λ w. ltb 0 w; inverse = λ w. some (60 / w) }

start_there : get_node "a" (linked 5) ≡ some (node "a" 4)
unfolding get_node get
start_there = refl

end_there : get_node "b" (linked 5) ≡ some (node "b" 2)
unfolding get_node get
end_there = refl

shortest_path_lem_example :
    (path : List String) × (shortest_path (Option ℕ) "a" "b" (linked 5) ≡ found path)
    × IsShortest (Option ℕ) (linked 5) "a" "b" path
shortest_path_lem_example =
    shortest_path_lem (linked 5) "a" "b" (node "a" 4) (node "b" 2) start_there end_there

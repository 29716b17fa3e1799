-- ===== src/Graph/Query/Offers.antt =====
-- The frontier, ordered by depth, and what one edge adds to it.
use ligp_v.Prelude.{
  ℕ, ◌+◌, ◌≡◌, ◌≤◌, Bool, not, ◌||◌, ◌&&◌, Option, List, [], ◌∷◌, ◌++◌, arith, if◌then◌else◌,
  String, contains, contains-append, string_eq, ◌==◌, eq_iff,
}
use ligp_v.Graph.Store.{Edge}
use ligp_v.Graph.Query.{Search, follows, offer}

-- Depths that do not fall along the frontier and stay between two bounds.
abbrev pub Ordered : ℕ → ℕ → List (String × ℕ) → Type 0
Ordered lo hi [] = Unit
Ordered lo hi (p ∷ rest) = (lo ≤ p.1) × (p.1 ≤ hi) × Ordered p.1 hi rest

pub Ordered-append :
    (lo hi : ℕ) (frontier : List (String × ℕ)) (v : String)
    → lo ≤ hi
    → Ordered lo hi frontier
    → Ordered lo hi (frontier ++ (v, hi) ∷ [])
Ordered-append lo hi [] v h k = (h, omega arith, tt)
Ordered-append lo hi (p ∷ rest) v h (a, b, k) = (a, b, Ordered-append p.1 hi rest v b k)

pub Ordered-mono :
    (lo hi hi' : ℕ) (frontier : List (String × ℕ))
    → hi ≤ hi'
    → Ordered lo hi frontier
    → Ordered lo hi' frontier
Ordered-mono lo hi hi' [] h k = tt
Ordered-mono lo hi hi' (p ∷ rest) h (a, b, k) = (a, omega arith, Ordered-mono p.1 hi hi' rest h k)

module _ {W : Type 0} where
  -- Whether the edge queues its end.
  abbrev pub news : Option String → Edge W → Search W → Bool
  news relation e s = follows relation e && not (contains s.visited e.to_node)

  pub frontier-offer :
      (relation : Option String) (depth : ℕ) (e : Edge W) (s : Search W)
      → (offer relation depth e s).frontier
        ≡ (if news relation e s then s.frontier ++ (e.to_node, depth + 1) ∷ [] else s.frontier)
  unfolding offer
  frontier-offer relation depth e s = ground arith

  pub visited-offer :
      (relation : Option String) (depth : ℕ) (e : Edge W) (s : Search W)
      → (offer relation depth e s).visited
        ≡ (if news relation e s then s.visited ++ e.to_node ∷ [] else s.visited)
  unfolding offer
  visited-offer relation depth e s = ground arith

  pub contains-offer :
      (relation : Option String) (depth : ℕ) (e : Edge W) (s : Search W) (v : String)
      → contains (offer relation depth e s).visited v
        ≡ (contains s.visited v || follows relation e && e.to_node == v)
  contains-offer relation depth e s v = ground (
    arith,
    visited-offer relation depth e s,
    contains-append s.visited (e.to_node ∷ []) v,
    eq_iff e.to_node v,
  )

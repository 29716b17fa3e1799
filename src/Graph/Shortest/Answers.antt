-- ===== src/Graph/Shortest/Answers.antt =====
-- What the search over costs returns.
use mathlib.Core.List.{Memᴰ}
use mathlib.Core.List.Memᴰ
use mathlib.Core.Path.{subst}
use ligp_v.Prelude.{
  ℕ, zero, suc, ◌+◌, ◌≡◌, ◌⊎◌, ◌≤◌, refl, sym, ◌∙◌, ap, true, false, some, List, [], ◌∷◌, arith,
  inl, inr, Bool-cases, length, String, contains, string_eq, ◌==◌, eq_iff, if◌then◌else◌,
}
use ligp_v.Dict.{get, beq_refl}
use ligp_v.Graph.Store.{Node, GraphStore, get_node, num_edges}
use ligp_v.Graph.Query.{found}
use ligp_v.Graph.Query.Rounds.{List-cases}
use ligp_v.Graph.Shortest.{
  Costs, Inverse, Entry, Search, below, best_of, step, heappop, expand, loop, start, shortest_path,
}
use ligp_v.Graph.Shortest.Routes.{
  NoMore, NoMore-refl, NoMore-trans, less-NoMore, NoMore-less, below_trans, Route,
}
use ligp_v.Graph.Shortest.Least.{IsLeast, heappop_lem, parts}
use ligp_v.Graph.Shortest.Sound.{IsSound}
use ligp_v.Graph.Shortest.Rounds.{expand-IsSound}
use ligp_v.Graph.Shortest.Effort.{effort, effort-expand, pending-num_edges}

module _ {W : Type 0} (C : Type 0) ⦃k : Costs C⦄ ⦃w : Inverse W C⦄ (g : GraphStore W)
    (src dst : String) where
  -- A route of the least cost, or none at all.
  abbrev pub IsShortest : List String → Type 0
  IsShortest path =
      ((c : C) × Route g src dst c path
        × (below c k.inf ≡ true)
        × ((d : C) (q : List String) → Route g src dst d q → NoMore c d))
      ⊎ ((path ≡ []) × ((d : C) (q : List String) → Route g src dst d q → NoMore k.inf d))

module _ {W C : Type 0} ⦃k : Costs C⦄ ⦃w : Inverse W C⦄ (g : GraphStore W) (src dst : String) where
  module _ (done : List String) (reached b : C) (s : Search C)
      (i : IsSound g src done done reached s)
      (ahead : (x : Entry C) → Memᴰ x s.heap → NoMore b x.cost) (fin : NoMore b k.inf) where
    left : (v : String) (d : C) → NoMore (best_of v s) d → below d b ≡ true → contains done v ≡ true
    left v d low near = elim (Bool-cases (contains done v)) [
      | inl old ↦ old
      | inr new ↦
          let (x, m, node, least) =
            i.queued v new
              (below_trans (best_of v s) b k.inf (NoMore-less (best_of v s) d b low near) fin) in
          let all : NoMore b d =
            NoMore-trans b (best_of v s) d (NoMore-trans b x.cost (best_of v s) (ahead x m) least)
              low in
          absurd (ground arith)
    ]

    -- A node that is nearer than all entries of the heap has left it.
    nearer :
        {v : String} {d : C} {q : List String}
        → Route g src v d q
        → below d b ≡ true
        → (contains done v ≡ true) × NoMore (best_of v s) d
    nearer Route.at_start near = (left src k.nought i.begun near, i.begun)
    nearer (Route.along {u} {c} e way m) near =
        let before : below c b ≡ true =
          NoMore-less c (k.plus c (step e)) b (k.plus_grows c (step e)) near in
        let (old, low) = nearer way before in
        let here : NoMore (best_of e.to_node s) (k.plus c (step e)) =
          NoMore-trans (best_of e.to_node s) (k.plus (best_of u s) (step e)) (k.plus c (step e))
            (i.spent u old e m) (k.plus_mono (best_of u s) c (step e) low) in
        (left e.to_node (k.plus c (step e)) here near, here)

    -- While the goal has not left the heap, no route to it is nearer.
    no_nearer :
        contains done dst ≡ false → (d : C) (q : List String) → Route g src dst d q → NoMore b d
    no_nearer unseen d q way = elim (Bool-cases (below d b)) [
      | inr far ↦ far
      | inl near ↦ absurd (ground (arith, (nearer way near).0))
    ]

  module _ (done : List String) (reached : C) (s : Search C) (i : IsSound g src done done reached s)
      (unseen : contains done dst ≡ false) where
    emptied : s.heap ≡ [] → IsShortest C g src dst []
    emptied none_left = inr (
      refl,
      no_nearer done reached k.inf s i
          (λ x m. absurd (Memᴰ.not-nil (subst (λ h. Memᴰ x h) none_left m))) (NoMore-refl k.inf)
          unseen,
    )

    arrived :
        (x : Entry C) (xs : List (Entry C))
        → s.heap ≡ x ∷ xs
        → (heappop x xs).0.node ≡ dst
        → IsShortest C g src dst (heappop x xs).0.path
    arrived x xs heap at =
        let least : IsLeast (x ∷ xs) (heappop x xs) = heappop_lem x xs in
        let m : Memᴰ (heappop x xs).0 s.heap =
          subst (λ h. Memᴰ (heappop x xs).0 h) (sym heap) least.first in
        let p : Entry C = (heappop x xs).0 in
        inl (
          p.cost,
          subst (λ v. Route g src v p.cost p.path) at (i.backed p m),
          i.finite p m,
          no_nearer done reached p.cost s i (λ y n. least.least y (subst (λ h. Memᴰ y h) heap n))
              (less-NoMore p.cost k.inf (i.finite p m)) unseen,
        )

  -- The loop on a heap that is not empty.
  loop-arrived :
      (fuel : ℕ) (s : Search C) (x : Entry C) (xs : List (Entry C))
      → s.heap ≡ x ∷ xs
      → (heappop x xs).0.node == dst ≡ true
      → loop (suc fuel) dst g s ≡ found (heappop x xs).0.path
  unfolding loop
  loop-arrived fuel s x xs heap at =
      subst (λ h. loop (suc fuel) dst g (record s { heap = h }) ≡ found (heappop x xs).0.path)
        (sym heap) (ground arith)

  loop-expand :
      (fuel : ℕ) (s : Search C) (x : Entry C) (xs : List (Entry C))
      → s.heap ≡ x ∷ xs
      → (heappop x xs).0.node == dst ≡ false
      → loop (suc fuel) dst g s ≡ loop fuel dst g (expand g (heappop x xs).0 (heappop x xs).1 s)
  unfolding loop expand
  loop-expand fuel s x xs heap other =
      subst
        (λ h.
          loop (suc fuel) dst g (record s { heap = h })
          ≡ loop fuel dst g (expand g (heappop x xs).0 (heappop x xs).1 s))
        (sym heap) (ground arith)

  loop_lem :
      (fuel : ℕ) (done : List String) (reached : C) (s : Search C)
      → IsSound g src done done reached s
      → contains done dst ≡ false
      → effort g done s ≤ fuel
      → (path : List String) × (loop fuel dst g s ≡ found path) × IsShortest C g src dst path
  unfolding loop
  loop_lem zero done reached s i unseen enough = elim (List-cases s.heap) [
    | inl none_left ↦ ([], rw none_left refl, emptied done reached s i unseen none_left)
    | inr (x, xs, heap) ↦ absurd (omega (arith, enough, ap length heap))
  ]
  loop_lem (suc fuel) done reached s i unseen enough = elim (List-cases s.heap) [
    | inl none_left ↦ ([], rw none_left refl, emptied done reached s i unseen none_left)
    | inr (x, xs, heap) ↦ elim (Bool-cases ((heappop x xs).0.node == dst)) [
      | inl at ↦ (
        (heappop x xs).0.path,
        loop-arrived fuel s x xs heap at,
        arrived done reached s i unseen x xs heap ((eq_iff (heappop x xs).0.node dst).0 at),
      )
      | inr other ↦
          let (path, ends, shortest) =
            loop_lem fuel ((heappop x xs).0.node ∷ done) (heappop x xs).0.cost
              (expand g (heappop x xs).0 (heappop x xs).1 s)
              (expand-IsSound g src done reached s x xs heap i) (ground arith)
              (omega (arith, effort-expand g src done reached s x xs heap i)) in
          (path, loop-expand fuel s x xs heap other ∙ ends, shortest)
    ]
  ]

  best_of-start :
      (v : String) → best_of {C = C} v (start src) ≡ (if src == v then k.nought else k.inf)
  unfolding get
  best_of-start v = ground arith

  best_of-source : best_of {C = C} src (start src) ≡ k.nought
  best_of-source = rw (best_of-start src, beq_refl src) refl

  start-IsSound : IsSound g src [] [] k.nought (start src)
  start-IsSound = record {
    finite = λ x m. elim (parts m) [
      | inl same ↦ rw same k.nought_finite
      | inr more ↦ absurd (Memᴰ.not-nil more)
    ];
    backed = λ x m. elim (parts m) [
      | inl same ↦ rw same Route.at_start
      | inr more ↦ absurd (Memᴰ.not-nil more)
    ];
    ahead = λ x m. k.nought_least x.cost;
    known = λ x m. elim (parts m) [
      | inl same ↦ rw (same, best_of-source) (NoMore-refl k.nought)
      | inr more ↦ absurd (Memᴰ.not-nil more)
    ];
    queued = λ v new fin. elim (Bool-cases (src == v)) [
      | inl same ↦ (
        _,
        Memᴰ.head refl,
        (eq_iff src v).0 same,
        rw (best_of-start v, same) (NoMore-refl k.nought),
      )
      | inr other ↦ absurd (ground (arith, best_of-start v, NoMore-refl k.inf))
    ];
    settled = λ v h. absurd (ground arith);
    spent = λ v h. absurd (ground arith);
    within = λ v h. h;
    begun = rw best_of-source (NoMore-refl k.nought);
  }

  -- Between two nodes of the graph the search of `shortest_path` ends: it returns the nodes of a
  -- route along edges of the graph whose cost, the sum of `1 / weight` in the order of the route,
  -- is finite and not above that of any other route; or nothing, and then no route has a finite cost.
  pub shortest_path_lem :
      (m n : Node W)
      → get_node src g ≡ some m
      → get_node dst g ≡ some n
      → (path : List String) × (shortest_path C src dst g ≡ found path)
        × IsShortest C g src dst path
  unfolding shortest_path
  shortest_path_lem m n start_there end_there = elim (Bool-cases (src == dst)) [
    | inl same ↦
        let this : src ≡ dst = (eq_iff src dst).0 same in
        (
          src ∷ [],
          ground arith,
          inl (
            k.nought,
            subst (λ v. Route g src v k.nought (src ∷ [])) this Route.at_start,
            k.nought_finite,
            λ d q way. k.nought_least d,
          ),
        )
    | inr other ↦
        let (path, ends, shortest) =
          loop_lem (num_edges g + 1) [] k.nought (start src) start-IsSound refl
            (omega (arith, pending-num_edges g)) in
        (path, ground (arith, ends), shortest)
  ]

-- ===== src/Graph/Shortest/Rounds.antt =====
-- A round of the search over costs: an entry leaves the heap and its edges are tried.
use mathlib.Core.List.{Memᴰ}
use mathlib.Core.Path.{subst}
use ligp_v.Prelude.{
  ◌≡◌, refl, sym, ◌∙◌, ap, true, false, List, [], ◌∷◌, arith, inl, inr, Bool-cases, String,
  contains, string_eq, eq_iff,
}
use ligp_v.Graph.Store.{Edge, GraphStore}
use ligp_v.Graph.Query.{out_edges}
use ligp_v.Graph.Shortest.{
  Costs, Inverse, Entry, Search, below, best_of, step, relax, relax_all, heappop, expand,
}
use ligp_v.Graph.Shortest.Routes.{
  NoMore, NoMore-refl, NoMore-trans, less-NoMore, below_trans, Route,
}
use ligp_v.Graph.Shortest.Least.{IsLeast, heappop_lem, parts}
use ligp_v.Graph.Shortest.Sound.{
  IsSound, Spent, relax-IsSound, relax-NoMore, relax-self, relax-settled,
}

module _ {W C : Type 0} ⦃k : Costs C⦄ ⦃w : Inverse W C⦄ where
  relax_all-NoMore :
      (c : C) (path : List String) (es : List (Edge W)) (s : Search C) (v : String)
      → NoMore (best_of v (relax_all c path es s)) (best_of v s)
  unfolding relax_all
  relax_all-NoMore c path [] s v = NoMore-refl (best_of v s)
  relax_all-NoMore c path (e ∷ es) s v =
      NoMore-trans _ (best_of v (relax c path e s)) (best_of v s)
        (relax_all-NoMore c path es (relax c path e s) v) (relax-NoMore c path e s v)

  relax_all-self :
      (c : C) (path : List String) (es : List (Edge W)) (s : Search C) (e : Edge W)
      → Memᴰ e es
      → NoMore (best_of e.to_node (relax_all c path es s)) (k.plus c (step e))
  unfolding relax_all
  relax_all-self c path [] s e m = elim m [ ]
  relax_all-self c path (f ∷ es) s e m = elim (parts m) [
    | inl same ↦ rw same (
        NoMore-trans _ (best_of f.to_node (relax c path f s)) (k.plus c (step f))
          (relax_all-NoMore c path es (relax c path f s) f.to_node) (relax-self c path f s))
    | inr later ↦ relax_all-self c path es (relax c path f s) e later
  ]

  relax_all-settled :
      (c : C) (path : List String) (es : List (Edge W)) (s : Search C) (v : String)
      → NoMore (best_of v s) c
      → best_of v (relax_all c path es s) ≡ best_of v s
  unfolding relax_all
  relax_all-settled c path [] s v low = refl
  relax_all-settled c path (e ∷ es) s v low =
      let same : best_of v (relax c path e s) ≡ best_of v s = relax-settled c path e s v low in
      relax_all-settled c path es (relax c path e s) v (subst (λ b. NoMore b c) (sym same) low)
      ∙ same

  relax_all-IsSound :
      (g : GraphStore W) (src : String) (done shut : List String) (c : C) (path : List String)
      (u : String) (es : List (Edge W)) (s : Search C)
      → Route g src u c path
      → ((e : Edge W) → Memᴰ e es → Memᴰ e (out_edges u g))
      → IsSound g src done shut c s
      → IsSound g src done shut c (relax_all c path es s)
  unfolding relax_all
  relax_all-IsSound g src done shut c path u [] s way sub i = i
  relax_all-IsSound g src done shut c path u (e ∷ es) s way sub i =
      relax_all-IsSound g src done shut c path u es (relax c path e s) way
        (λ f m. sub f (Memᴰ.tail m))
        (relax-IsSound g src done shut c path u e s i way (sub e (Memᴰ.head refl)))

  module _ (g : GraphStore W) (src : String) (done : List String) (reached : C) (s : Search C)
      (x : Entry C) (xs : List (Entry C)) (heap : s.heap ≡ x ∷ xs)
      (i : IsSound g src done done reached s) where
    abbrev popped : Entry C × List (Entry C)
    popped = heappop x xs

    abbrev least : IsLeast (x ∷ xs) popped
    least = heappop_lem x xs

    was : (y : Entry C) → Memᴰ y (x ∷ xs) → Memᴰ y s.heap
    was y m = subst (λ h. Memᴰ y h) (sym heap) m

    queued-pop :
        (v : String)
        → contains (popped.0.node ∷ done) v ≡ false
        → below (best_of v s) k.inf ≡ true
        → (y : Entry C) × Memᴰ y popped.1 × (y.node ≡ v) × NoMore y.cost (best_of v s)
    queued-pop v h fin =
        let (y, m, node, low) = i.queued v (ground arith) fin in
        elim (least.split y (subst (λ t. Memᴰ y t) heap m)) [
          | inl same ↦
              absurd
                (ground (arith, (eq_iff popped.0.node v).1 (ap (λ t. t.node) (sym same) ∙ node)))
          | inr later ↦ (y, later, node, low)
        ]

    -- The popped node is settled at the cost of its entry.
    pub pop-IsSound :
        IsSound g src (popped.0.node ∷ done) done popped.0.cost (record s { heap = popped.1 })
    pop-IsSound = record {
      finite = λ y m. i.finite y (was y (least.kept y m));
      backed = λ y m. i.backed y (was y (least.kept y m));
      ahead = λ y m. least.least y (least.kept y m);
      known = λ y m. i.known y (was y (least.kept y m));
      queued = queued-pop;
      settled = λ v h. elim (Bool-cases (contains done v)) [
        | inl old ↦
            NoMore-trans (best_of v s) reached popped.0.cost (i.settled v old)
              (i.ahead popped.0 (was popped.0 least.first))
        | inr new ↦
            let this : popped.0.node ≡ v = (eq_iff popped.0.node v).0 (ground arith) in
            subst (λ t. NoMore (best_of t s) popped.0.cost) this
              (i.known popped.0 (was popped.0 least.first))
      ];
      spent = i.spent;
      within = λ v h. ground (arith, i.within v h);
      begun = i.begun;
    }

    -- The cost at which a node first leaves the heap is the best there is.
    fresh : contains done popped.0.node ≡ false → NoMore popped.0.cost (best_of popped.0.node s)
    fresh new = elim (Bool-cases (below (best_of popped.0.node s) popped.0.cost)) [
      | inr low ↦ low
      | inl high ↦
          let (y, m, node, low) = i.queued popped.0.node new (
            below_trans (best_of popped.0.node s) popped.0.cost k.inf high
              (less-NoMore popped.0.cost k.inf (i.finite popped.0 (was popped.0 least.first)))) in
          NoMore-trans popped.0.cost y.cost (best_of popped.0.node s)
            (least.least y (subst (λ t. Memᴰ y t) heap m)) low
    ]

    abbrev edges : List (Edge W)
    edges = out_edges popped.0.node g

    abbrev next : Search C
    next = relax_all popped.0.cost popped.0.path edges (record s { heap = popped.1 })

    next-IsSound : IsSound g src (popped.0.node ∷ done) done popped.0.cost next
    next-IsSound =
        relax_all-IsSound g src (popped.0.node ∷ done) done popped.0.cost popped.0.path
          popped.0.node edges (record s { heap = popped.1 })
          (i.backed popped.0 (was popped.0 least.first)) (λ e m. m) pop-IsSound

    unchanged : best_of popped.0.node next ≡ best_of popped.0.node s
    unchanged =
        relax_all-settled popped.0.cost popped.0.path edges (record s { heap = popped.1 })
          popped.0.node (i.known popped.0 (was popped.0 least.first))

    -- The edges from a node that leaves the heap for the first time are spent afterwards.
    Spent-next :
        contains done popped.0.node ≡ false
        → (e : Edge W) → Memᴰ e edges
        → Spent popped.0.node e next
    Spent-next new e m =
        NoMore-trans (best_of e.to_node next) (k.plus popped.0.cost (step e))
          (k.plus (best_of popped.0.node next) (step e))
          (relax_all-self popped.0.cost popped.0.path edges (record s { heap = popped.1 }) e m)
          (k.plus_mono popped.0.cost (best_of popped.0.node next) (step e)
            (subst (λ b. NoMore popped.0.cost b) (sym unchanged) (fresh new)))

    pub expand-IsSound :
        IsSound g src
          (popped.0.node ∷ done)
          (popped.0.node ∷ done)
          popped.0.cost
          (expand g popped.0 popped.1 s)
    unfolding expand
    expand-IsSound = record {
      finite = next-IsSound.finite;
      backed = next-IsSound.backed;
      ahead = next-IsSound.ahead;
      known = next-IsSound.known;
      queued = next-IsSound.queued;
      settled = next-IsSound.settled;
      spent = λ v h e m. elim (Bool-cases (contains done v)) [
        | inl old ↦ next-IsSound.spent v old e m
        | inr new ↦
            let this : popped.0.node ≡ v = (eq_iff popped.0.node v).0 (ground arith) in
            subst (λ t. Spent t e next) this
              (Spent-next (subst (λ t. contains done t ≡ false) (sym this) new) e
                (subst (λ t. Memᴰ e (out_edges t g)) (sym this) m))
      ];
      within = λ v h. h;
      begun = next-IsSound.begun;
    }

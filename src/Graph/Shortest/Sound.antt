-- ===== src/Graph/Shortest/Sound.antt =====
-- The invariant of the search over costs.
use mathlib.Core.List.{Memᴰ}
use mathlib.Core.Path.{subst}
use ligp_v.Prelude.{
  ◌≡◌, refl, sym, true, false, List, [], ◌∷◌, ◌++◌, arith, inl, inr, Bool-cases, String, contains,
  string_eq, ◌==◌, eq_iff, if◌then◌else◌,
}
use ligp_v.Dict.{put, get-put}
use ligp_v.Graph.Store.{Edge, GraphStore}
use ligp_v.Graph.Query.{out_edges}
use ligp_v.Graph.Shortest.{Costs, Inverse, Entry, Search, below, best_of, step, relax}
use ligp_v.Graph.Shortest.Routes.{
  NoMore, NoMore-refl, NoMore-trans, less-NoMore, below_trans, Route,
}
use ligp_v.Graph.Shortest.Least.{parts}

module _ {W C : Type 0} ⦃k : Costs C⦄ ⦃w : Inverse W C⦄ where
  -- An edge that cannot improve on what is known of its end.
  abbrev pub Spent : String → Edge W → Search C → Type 0
  Spent v e s = NoMore (best_of e.to_node s) (k.plus (best_of v s) (step e))

  -- `done` has left the heap up to the cost `reached`, and the edges from `shut` have been tried.
  pub record IsSound (g : GraphStore W) (src : String) (done shut : List String) (reached : C)
      (s : Search C) : Type 0 where
    pub finite : (x : Entry C) → Memᴰ x s.heap → below x.cost k.inf ≡ true
    pub backed : (x : Entry C) → Memᴰ x s.heap → Route g src x.node x.cost x.path
    pub ahead : (x : Entry C) → Memᴰ x s.heap → NoMore reached x.cost
    pub known : (x : Entry C) → Memᴰ x s.heap → NoMore (best_of x.node s) x.cost
    pub queued :
        (v : String)
        → contains done v ≡ false
        → below (best_of v s) k.inf ≡ true
        → (x : Entry C) × Memᴰ x s.heap × (x.node ≡ v) × NoMore x.cost (best_of v s)
    pub settled : (v : String) → contains done v ≡ true → NoMore (best_of v s) reached
    pub spent :
        (v : String) → contains shut v ≡ true → (e : Edge W) → Memᴰ e (out_edges v g) → Spent v e s
    pub within : (v : String) → contains shut v ≡ true → contains done v ≡ true
    pub begun : NoMore (best_of src s) k.nought

  -- What is known of a node after an edge has been tried.
  pub best_of-relax :
      (c : C) (path : List String) (e : Edge W) (s : Search C) (v : String)
      → best_of v (relax c path e s) ≡ (
          if below (k.plus c (step e)) (best_of e.to_node s)
          then if e.to_node == v then k.plus c (step e) else best_of v s
          else best_of v s)
  unfolding relax
  best_of-relax c path e s v = ground (arith, get-put e.to_node v (k.plus c (step e)) s.best)

  pub relax-NoMore :
      (c : C) (path : List String) (e : Edge W) (s : Search C) (v : String)
      → NoMore (best_of v (relax c path e s)) (best_of v s)
  relax-NoMore c path e s v = ground (
    arith,
    best_of-relax c path e s v,
    eq_iff e.to_node v,
    NoMore-refl (best_of v s),
    less-NoMore (k.plus c (step e)) (best_of v s),
  )

  -- The edge that has been tried is spent.
  pub relax-self :
      (c : C) (path : List String) (e : Edge W) (s : Search C)
      → NoMore (best_of e.to_node (relax c path e s)) (k.plus c (step e))
  relax-self c path e s = ground (
    arith,
    best_of-relax c path e s e.to_node,
    eq_iff e.to_node e.to_node,
    NoMore-refl (k.plus c (step e)),
  )

  -- What is settled does not change.
  pub relax-settled :
      (c : C) (path : List String) (e : Edge W) (s : Search C) (v : String)
      → NoMore (best_of v s) c
      → best_of v (relax c path e s) ≡ best_of v s
  relax-settled c path e s v low = ground (
    arith,
    best_of-relax c path e s v,
    eq_iff e.to_node v,
    NoMore-trans (best_of v s) c (k.plus c (step e)) low (k.plus_grows c (step e)),
  )

  -- The search after an edge has improved on its end.
  abbrev pushed : C → List String → Edge W → Search C → Search C
  pushed c path e s = record {
    heap =
        record { cost = k.plus c (step e); node = e.to_node; path = path ++ e.to_node ∷ [] }
        ∷ s.heap;
    best = put e.to_node (k.plus c (step e)) s.best;
  }

  module _ (g : GraphStore W) (src : String) (done shut : List String) (c : C) (path : List String)
      (u : String) (e : Edge W) (s : Search C) (i : IsSound g src done shut c s)
      (way : Route g src u c path) (there : Memᴰ e (out_edges u g)) where
    module _ (hit : below (k.plus c (step e)) (best_of e.to_node s) ≡ true) where
      improved : relax c path e s ≡ pushed c path e s
      unfolding relax
      improved = rw hit refl

      best_of-pushed :
          (v : String)
          → best_of v (pushed c path e s)
            ≡ (if e.to_node == v then k.plus c (step e) else best_of v s)
      best_of-pushed v = ground (arith, get-put e.to_node v (k.plus c (step e)) s.best)

      pushed-NoMore : (v : String) → NoMore (best_of v (pushed c path e s)) (best_of v s)
      pushed-NoMore v =
          subst (λ t. NoMore (best_of v t) (best_of v s)) improved (relax-NoMore c path e s v)

      pushed-settled :
          (v : String) → contains done v ≡ true → best_of v (pushed c path e s) ≡ best_of v s
      pushed-settled v h =
          subst (λ t. best_of v t ≡ best_of v s) improved
            (relax-settled c path e s v (i.settled v h))

      queued-pushed :
          (v : String)
          → contains done v ≡ false
          → below (best_of v (pushed c path e s)) k.inf ≡ true
          → (x : Entry C) × Memᴰ x (pushed c path e s).heap
            × (x.node ≡ v)
            × NoMore x.cost (best_of v (pushed c path e s))
      queued-pushed v h fin = elim (Bool-cases (e.to_node == v)) [
        | inl same ↦ (
          _,
          Memᴰ.head refl,
          (eq_iff e.to_node v).0 same,
          rw (best_of-pushed v, same) (NoMore-refl (k.plus c (step e))),
        )
        | inr other ↦
            let kept : best_of v (pushed c path e s) ≡ best_of v s =
              ground (arith, best_of-pushed v) in
            let (x, m, node, low) = i.queued v h (subst (λ b. below b k.inf ≡ true) kept fin) in
            (x, Memᴰ.tail m, node, subst (λ b. NoMore x.cost b) (sym kept) low)
      ]

      pushed-IsSound : IsSound g src done shut c (pushed c path e s)
      pushed-IsSound = record {
        finite = λ x m. elim (parts m) [
          | inl same ↦ rw same (
              below_trans {C = C} (k.plus c (step e)) (best_of e.to_node s) k.inf hit
                (k.inf_greatest (best_of e.to_node s)))
          | inr old ↦ i.finite x old
        ];
        backed = λ x m. elim (parts m) [
          | inl same ↦ rw same (Route.along e way there)
          | inr old ↦ i.backed x old
        ];
        ahead = λ x m. elim (parts m) [
          | inl same ↦ rw same (k.plus_grows c (step e))
          | inr old ↦ i.ahead x old
        ];
        known = λ x m. elim (parts m) [
          | inl same ↦ rw same (
              subst (λ t. NoMore (best_of e.to_node t) (k.plus c (step e))) improved
                (relax-self c path e s))
          | inr old ↦
              NoMore-trans _ (best_of x.node s) x.cost (pushed-NoMore x.node) (i.known x old)
        ];
        queued = queued-pushed;
        settled = λ v h. NoMore-trans _ (best_of v s) c (pushed-NoMore v) (i.settled v h);
        spent = λ v h f m.
            subst (λ b. NoMore (best_of f.to_node (pushed c path e s)) (k.plus b (step f)))
              (sym (pushed-settled v (i.within v h)))
              (NoMore-trans _ (best_of f.to_node s) _ (pushed-NoMore f.to_node) (i.spent v h f m));
        within = i.within;
        begun = NoMore-trans _ (best_of src s) k.nought (pushed-NoMore src) i.begun;
      }

    pub relax-IsSound : IsSound g src done shut c (relax c path e s)
    unfolding relax
    relax-IsSound = elim (Bool-cases (below (k.plus c (step e)) (best_of e.to_node s))) [
      | inl hit ↦ rw hit (pushed-IsSound hit)
      | inr miss ↦ rw miss i
    ]

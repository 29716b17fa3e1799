-- ===== src/Graph/Shortest/Effort.antt =====
-- How far the search over costs can still go: entries of the heap, and edges from nodes that have not
-- left it.
use mathlib.Core.List.{Memᴰ}
use mathlib.Core.Path.{subst}
use ligp_v.Prelude.{
  ℕ, suc, ◌+◌, ◌≡◌, ◌≤◌, refl, sym, ◌∙◌, ap, true, false, List, [], ◌∷◌, arith, inl, inr,
  Bool-cases, length, String, contains, string_eq, ◌==◌, eq_iff, if◌then◌else◌, or_default,
}
use ligp_v.Dict.{Dict, get, values}
use ligp_v.Graph.Store.{Edge, GraphStore, total, num_edges}
use ligp_v.Graph.Query.{out_edges}
use ligp_v.Graph.Shortest.{
  Costs, Inverse, Entry, Search, below, best_of, step, relax, relax_all, heappop, expand,
}
use ligp_v.Graph.Shortest.Routes.{NoMore, NoMore-trans}
use ligp_v.Graph.Shortest.Least.{IsLeast, heappop_lem}
use ligp_v.Graph.Shortest.Sound.{IsSound}

module _ {W : Type 0} where
  -- The edges from the nodes that are not in `done`.
  abbrev pub pending : List String → Dict String (List (Edge W)) → ℕ
  pending done [] = 0
  pending done ((v, es) ∷ d) =
      let rest = pending done d in if contains done v then rest else length es + rest

  pending-total : (d : Dict String (List (Edge W))) → pending [] d ≡ total (values d)
  pending-total [] = refl
  pending-total ((v, es) ∷ d) = ap (λ n. length es + n) (pending-total d)

  pub pending-num_edges : (g : GraphStore W) → pending [] g.adj ≡ num_edges g
  unfolding num_edges
  pending-num_edges g = pending-total g.adj

  pending_grow :
      (u : String) (done : List String) (d : Dict String (List (Edge W)))
      → pending (u ∷ done) d ≤ pending done d
  pending_grow u done [] = omega arith
  pending_grow u done ((v, es) ∷ d) = ground (arith, pending_grow u done d)

  pending-get :
      (u : String) (done : List String) (d : Dict String (List (Edge W)))
      → contains done u ≡ false
      → pending (u ∷ done) d + length (or_default (get u d) []) ≤ pending done d
  unfolding get
  pending-get u done [] new = omega arith
  pending-get u done ((v, es) ∷ d) new = elim (Bool-cases (v == u)) [
    | inl same ↦
        let this : v ≡ u = (eq_iff v u).0 same in
        ground (arith, pending_grow u done d, eq_iff u v, eq_iff v u)
    | inr other ↦ ground (arith, pending-get u done d new, eq_iff u v, eq_iff v u)
  ]

module _ {W C : Type 0} ⦃k : Costs C⦄ ⦃w : Inverse W C⦄ where
  abbrev pub effort : GraphStore W → List String → Search C → ℕ
  effort g done s = length s.heap + pending done g.adj

  length-relax :
      (c : C) (path : List String) (e : Edge W) (s : Search C)
      → length (relax c path e s).heap ≤ suc (length s.heap)
  unfolding relax
  length-relax c path e s = elim (Bool-cases (below (k.plus c (step e)) (best_of e.to_node s))) [
    | inl hit ↦ rw hit (omega arith)
    | inr miss ↦ rw miss (omega arith)
  ]

  length-relax_all :
      (c : C) (path : List String) (es : List (Edge W)) (s : Search C)
      → length (relax_all c path es s).heap ≤ length es + length s.heap
  unfolding relax_all
  length-relax_all c path [] s = omega arith
  length-relax_all c path (e ∷ es) s =
      omega (arith, length-relax_all c path es (relax c path e s), length-relax c path e s)

  -- Edges that cannot improve anything leave the search as it is.
  relax_all-spent :
      (c : C) (path : List String) (es : List (Edge W)) (s : Search C)
      → ((e : Edge W) → Memᴰ e es → NoMore (best_of e.to_node s) (k.plus c (step e)))
      → relax_all c path es s ≡ s
  unfolding relax_all relax
  relax_all-spent c path [] s h = refl
  relax_all-spent c path (e ∷ es) s h =
      rw (h e (Memᴰ.head refl)) (relax_all-spent c path es s (λ f m. h f (Memᴰ.tail m)))

  module _ (g : GraphStore W) (src : String) (done : List String) (reached : C) (s : Search C)
      (x : Entry C) (xs : List (Entry C)) (heap : s.heap ≡ x ∷ xs)
      (i : IsSound g src done done reached s) where
    abbrev popped : Entry C × List (Entry C)
    popped = heappop x xs

    abbrev least : IsLeast (x ∷ xs) popped
    least = heappop_lem x xs

    shorter : suc (length popped.1) ≡ length s.heap
    shorter = least.size ∙ ap length (sym heap)

    -- A node that has left the heap before queues nothing.
    again :
        contains done popped.0.node ≡ true
        → expand g popped.0 popped.1 s ≡ record s { heap = popped.1 }
    unfolding expand
    again old =
        relax_all-spent popped.0.cost popped.0.path (out_edges popped.0.node g)
          (record s { heap = popped.1 })
          (λ e m.
            NoMore-trans (best_of e.to_node s) (k.plus (best_of popped.0.node s) (step e))
              (k.plus popped.0.cost (step e)) (i.spent popped.0.node old e m)
              (k.plus_mono (best_of popped.0.node s) popped.0.cost (step e)
                (i.known popped.0 (subst (λ h. Memᴰ popped.0 h) (sym heap) least.first))))

    length-expand :
        length (expand g popped.0 popped.1 s).heap
        ≤ length (or_default (get popped.0.node g.adj) []) + length popped.1
    unfolding expand out_edges
    length-expand =
        length-relax_all popped.0.cost popped.0.path (or_default (get popped.0.node g.adj) [])
          (record s { heap = popped.1 })

    pub effort-expand :
        suc (effort g (popped.0.node ∷ done) (expand g popped.0 popped.1 s)) ≤ effort g done s
    effort-expand = elim (Bool-cases (contains done popped.0.node)) [
      | inl old ↦ rw (again old) (omega (arith, shorter, pending_grow popped.0.node done g.adj))
      | inr new ↦ omega (arith, shorter, pending-get popped.0.node done g.adj new, length-expand)
    ]

-- ===== src/Graph/Query/Rounds.antt =====
-- The measure of the search, and the rule for the invariants of its loop.
use ligp_v.Prelude.{
  ℕ, zero, suc, ◌+◌, ◌≡◌, ◌⊎◌, ◌≤◌, refl, true, false, Option, List, [], ◌∷◌, ◌++◌, arith,
  if◌then◌else◌, String, contains, contains-append, string_eq, ◌==◌, eq_iff, ap, inl, inr,
  Option-cases, Bool-cases, length, length-append, All,
}
use ligp_v.Dict.{Dict, get, keys, member}
use ligp_v.Graph.Store.{Edge, GraphStore}
use ligp_v.Graph.Store.Valid.{IsWell, AllFit}
use ligp_v.Graph.Query.{Search, found, out_edges, offer, scan, round, loop}
use ligp_v.Graph.Query.Offers.{news, visited-offer, frontier-offer}

pub List-cases {ℓ} :
    {A : Type ℓ} (xs : List A) → (xs ≡ []) ⊎ ((x : A) × (rest : List A) × (xs ≡ x ∷ rest))
List-cases [] = inl refl
List-cases (x ∷ xs) = inr (x, xs, refl)

-- The names of a list that are not in another.
abbrev pub unseen : List String → List String → ℕ
unseen visited [] = 0
unseen visited (k ∷ ks) =
    let rest = unseen visited ks in if contains visited k then rest else suc rest

pub unseen-le : (visited ks : List String) → unseen visited ks ≤ length ks
unseen-le visited [] = omega arith
unseen-le visited (k ∷ ks) = ground (arith, unseen-le visited ks)

unseen_grow :
    (visited ks : List String) (v : String) → unseen (visited ++ v ∷ []) ks ≤ unseen visited ks
unseen_grow visited [] v = omega arith
unseen_grow visited (k ∷ ks) v =
    ground (arith, unseen_grow visited ks v, contains-append visited (v ∷ []) k)

unseen-append :
    (visited ks : List String) (v : String)
    → contains visited v ≡ false
    → contains ks v ≡ true
    → unseen (visited ++ v ∷ []) ks + 1 ≤ unseen visited ks
unseen-append visited [] v new there = ground arith
unseen-append visited (k ∷ ks) v new there = elim (Bool-cases (k == v)) [
  | inl same ↦
      let node : k ≡ v = (eq_iff k v).0 same in
      let at : contains (visited ++ v ∷ []) k ≡ true =
        ground (arith, contains-append visited (v ∷ []) k, eq_iff k v, eq_iff v k) in
      let before : contains visited k ≡ false = rw node new in
      rw (at, before) (omega (arith, unseen_grow visited ks v))
  | inr other ↦ ground (
    arith,
    unseen-append visited ks v new,
    contains-append visited (v ∷ []) k,
    eq_iff k v,
    eq_iff v k,
  )
]

module _ {V : Type 0} where
  contains-keys : (d : Dict String V) (k : String) → member k d ≡ true → contains (keys d) k ≡ true
  unfolding get
  contains-keys [] k h = ground arith
  contains-keys ((j, v) ∷ d) k h = ground (arith, contains-keys d k)

  pub length-keys : (d : Dict String V) → length (keys d) ≡ length d
  length-keys [] = refl
  length-keys ((j, v) ∷ d) = ap suc (length-keys d)

module _ {W : Type 0} (g : GraphStore W) (relation : Option String) (max_hops : ℕ) where
  -- A round takes one entry and queues only names it marks, so this falls.
  abbrev pub work : Search W → ℕ
  work s = unseen s.visited (keys g.nodes) + length s.frontier

  work-offer :
      (depth : ℕ) (e : Edge W) (s : Search W)
      → member e.to_node g.nodes ≡ true
      → work (offer relation depth e s) ≤ work s
  work-offer depth e s there = elim (Bool-cases (news relation e s)) [
    | inl hit ↦
        rw (frontier-offer relation depth e s, visited-offer relation depth e s, hit)
          (omega (
            arith,
            length-append s.frontier ((e.to_node, depth + 1) ∷ []),
            unseen-append s.visited (keys g.nodes) e.to_node (ground (arith, hit))
                (contains-keys g.nodes e.to_node there),
          ))
    | inr miss ↦
        rw (frontier-offer relation depth e s, visited-offer relation depth e s, miss) (omega arith)
  ]

  -- Every edge leads to a node.
  abbrev EndsIn : List (Edge W) → Type 0
  EndsIn = All (λ e. member e.to_node g.nodes ≡ true)

  work-scan :
      (depth : ℕ) (es : List (Edge W)) (s : Search W)
      → EndsIn es
      → work (scan relation depth es s) ≤ work s
  unfolding scan
  work-scan depth [] s h = omega arith
  work-scan depth (e ∷ es) s (there, h) =
      omega (arith, work-scan depth es (offer relation depth e s) h, work-offer depth e s there)

  EndsIn-fit : (u : String) (es : List (Edge W)) → AllFit g.nodes u es → EndsIn es
  EndsIn-fit u [] h = tt
  EndsIn-fit u (e ∷ es) ((from, to, rel), h) = (to, EndsIn-fit u es h)

  EndsIn-out_edges : IsWell g → (u : String) → EndsIn (out_edges u g)
  unfolding out_edges
  EndsIn-out_edges well u = elim (Option-cases (get u g.adj)) [
    | inl empty ↦ rw empty tt
    | inr (es, at) ↦ rw at (EndsIn-fit u es (well.sound u es at))
  ]

  work-round :
      (u : String) (depth : ℕ) (s : Search W)
      → IsWell g
      → work (round relation max_hops g u depth s) ≤ work s
  unfolding round
  work-round u depth s well =
      ground (arith, work-scan depth (out_edges u g) s (EndsIn-out_edges well u))

  pub loop_ends :
      (fuel : ℕ) (s : Search W)
      → IsWell g
      → work s ≤ fuel
      → (t : Search W) × (loop fuel relation max_hops g s ≡ found t)
  unfolding loop
  loop_ends zero s well h = elim (List-cases s.frontier) [
    | inl done ↦ (s, ground arith)
    | inr (p, rest, more) ↦ absurd (omega (arith, ap length more))
  ]
  loop_ends (suc fuel) s well h = elim (List-cases s.frontier) [
    | inl done ↦ (s, ground arith)
    | inr (p, rest, more) ↦
        let fits = work-round p.0 p.1 (record s { frontier = rest }) well in
        let (t, ends) =
          loop_ends fuel (round relation max_hops g p.0 p.1 (record s { frontier = rest })) well
            (omega (arith, fits, ap length more)) in
        (t, ground arith)
  ]

  -- What a round keeps holds at the end, where the frontier is empty.
  pub loop_rule :
      (P : Search W → Type 0)
      → ((s : Search W) (u : String) (depth : ℕ) (rest : List (String × ℕ))
          → P s
          → s.frontier ≡ (u, depth) ∷ rest
          → P (round relation max_hops g u depth (record s { frontier = rest })))
      → (fuel : ℕ) (s t : Search W) → P s
      → loop fuel relation max_hops g s ≡ found t
      → P t × (t.frontier ≡ [])
  unfolding loop
  loop_rule P keep zero s t p h = ground arith
  loop_rule P keep (suc fuel) s t p h = elim (List-cases s.frontier) [
    | inl done ↦ ground arith
    | inr ((u, depth), rest, more) ↦
        loop_rule P keep fuel (round relation max_hops g u depth (record s { frontier = rest })) t
          (keep s u depth rest p more) (rw (more, loop) at h)
  ]

-- ===== src/Graph/Versioning/Rollback.antt =====
-- What a rollback restores.
use ligp_v.Prelude.{
  ℕ, zero, suc, ◌+◌, ◌≡◌, refl, false, none, some, List, [], ◌∷◌, ◌++◌, arith, if◌then◌else◌,
  String, length, or_default, All, string_eq, ◌==◌, eq_iff, ◌∙◌, inl, inr, Bool-cases, keep, drop,
  ◌≤◌, ◌<◌, ◌-◌,
}
use mathlib.Core.List.{append-nil, append_assoc}
use ligp_v.Dict.{Dict, get, get-put, member, values}
use ligp_v.Graph.Store.{Node, Edge, GraphStore, list_edges, join}
use ligp_v.Graph.Versioning.{
  Snapshot, GraphVersioning, find, blank, append_at, restore_edges, rollback, snapshot_of,
  create_snapshot, latest,
}

get-append_at :
    {A : Type 0} (u k : String) (x : A) (d : Dict String (List A))
    → or_default (get u (append_at k x d)) []
      ≡ (if k == u then or_default (get u d) [] ++ x ∷ [] else or_default (get u d) [])
unfolding append_at
get-append_at u k x d =
    ground (arith, get-put k u (or_default (get k d) [] ++ x ∷ []) d, eq_iff k u)

module _ {W : Type 0} where
  -- The edges of a list that start at a node, in order.
  abbrev pub starting : String → List (Edge W) → List (Edge W)
  starting u es = keep (λ e. e.from_node == u) es

  pub edges_at : String → GraphStore W → List (Edge W)
  edges_at u g = or_default (get u g.adj) []

  -- The edge lists of a store hold edges from their key on, under distinct keys.
  abbrev pub Grouped : Dict String (List (Edge W)) → Type 0
  Grouped [] = Unit
  Grouped ((k, es) ∷ adj) = All (λ e. e.from_node ≡ k) es × (member k adj ≡ false) × Grouped adj

  edges_at-restore_edges :
      (u : String) (edges : List (Edge W)) (g : GraphStore W)
      → edges_at u (restore_edges edges g) ≡ edges_at u g ++ starting u edges
  unfolding restore_edges edges_at
  edges_at-restore_edges u [] g = rw append-nil
  edges_at-restore_edges u (e ∷ edges) g =
      let g' = record g {
        adj = append_at e.from_node e g.adj;
        incoming = append_at e.to_node (e.from_node, e.to_node, e.relation_type) g.incoming;
      } in
      let step = get-append_at u e.from_node e g.adj in
      elim (Bool-cases (e.from_node == u)) [
        | inl p ↦ edges_at-restore_edges u edges g' ∙ rw (step, p, append_assoc)
        | inr p ↦ edges_at-restore_edges u edges g' ∙ rw (step, p)
      ]

  nodes-restore_edges :
      (edges : List (Edge W)) (g : GraphStore W) → (restore_edges edges g).nodes ≡ g.nodes
  unfolding restore_edges
  nodes-restore_edges [] g = refl
  nodes-restore_edges (e ∷ edges) g = nodes-restore_edges edges _

  starting-append :
      (u : String) (xs ys : List (Edge W)) → starting u (xs ++ ys) ≡ starting u xs ++ starting u ys
  starting-append u [] ys = refl
  starting-append u (x ∷ xs) ys = ground (arith, starting-append u xs ys)

  starting-All :
      (u : String) (es : List (Edge W)) → All (λ e. e.from_node ≡ u) es → starting u es ≡ es
  starting-All u [] h = refl
  starting-All u (e ∷ es) h = ground (arith, eq_iff e.from_node u, starting-All u es h.1, h.0)

  starting_none :
      (u k : String) (es : List (Edge W))
      → All (λ e. e.from_node ≡ k) es
      → (k == u) ≡ false
      → starting u es ≡ []
  starting_none u k [] h n = refl
  starting_none u k (e ∷ es) h n =
      let miss : (e.from_node == u) ≡ false = rw h.0 n in rw miss (starting_none u k es h.1 n)

  no_entry :
      (u : String) (adj : Dict String (List (Edge W)))
      → member u adj ≡ false
      → or_default (get u adj) [] ≡ []
  no_entry u adj h = ground arith

  starting-join :
      (u : String) (adj : Dict String (List (Edge W)))
      → Grouped adj
      → starting u (join (values adj)) ≡ or_default (get u adj) []
  unfolding get
  starting-join u [] h = refl
  starting-join u ((k, es) ∷ adj) (own, once, rest) =
      starting-append u es (join (values adj)) ∙ elim (Bool-cases (k == u)) [
        | inl p ↦
            let same : k ≡ u = (eq_iff k u).0 p in
            let own' : All (λ e. e.from_node ≡ u) es = rw same at own in
            let empty : or_default (get u adj) [] ≡ [] = no_entry u adj (rw same at once) in
            rw (p, starting-All u es own', starting-join u adj rest, empty, append-nil)
        | inr p ↦ rw (p, starting_none u k es own p) (starting-join u adj rest)
      ]

  blank_at :
      (u : String) (nodes : Dict String (Node W))
      → or_default (get u (blank {A = Edge W} nodes)) [] ≡ []
  unfolding get
  blank_at u [] = refl
  blank_at u ((k, n) ∷ nodes) = ground (arith, blank_at u nodes)

  find-drop :
      (id : String) (n : ℕ) (xs : List (Snapshot W)) (x : Snapshot W)
      → find id xs ≡ none
      → n ≤ length xs
      → x.snapshot_id ≡ id
      → find id (drop n (xs ++ x ∷ [])) ≡ some x
  unfolding find
  find-drop id zero [] x absent h e = ground (arith, eq_iff x.snapshot_id id)
  find-drop id (suc n) [] x absent h e = absurd (omega arith)
  find-drop id zero (y ∷ xs) x absent h e = ground (arith, find-drop id zero xs x)
  find-drop id (suc n) (y ∷ xs) x absent h e = ground (arith, find-drop id n xs x)

  find_restored :
      (g : GraphStore W) (id : String) (v : GraphVersioning W) (snap : Snapshot W)
      → find id v.snapshots ≡ some snap
      → rollback g id v
        ≡ some (
            restore_edges snap.edges (record g {
              nodes = snap.nodes;
              adj = blank snap.nodes;
              incoming = blank snap.nodes;
            }))
  unfolding rollback
  find_restored g id v snap h = rw (h, rollback)

  restored :
      (g g0 : GraphStore W) (u : String)
      → Grouped g0.adj
      → edges_at u (
          restore_edges
            (list_edges g0)
            (record g { nodes = g0.nodes; adj = blank g0.nodes; incoming = blank g0.nodes }))
        ≡ edges_at u g0
  unfolding list_edges edges_at
  restored g g0 u grouped =
      edges_at-restore_edges u (join (values g0.adj)) _
      ∙ rw (blank_at u g0.nodes) (starting-join u g0.adj grouped)

  module _ (str : ℕ → String) (stamp now label : String) (g0 g : GraphStore W)
      (v : GraphVersioning W) where
    abbrev taken : GraphVersioning W × String
    taken = create_snapshot str stamp now g0 label v

    -- A rollback to the snapshot just taken succeeds on any store `g`, and brings back the nodes of
    -- the store that the snapshot was taken of, and at every node its edges in their order, if
    -- `keep_versions` is positive, no older snapshot has the new name, and the edge lists of the
    -- store that was saved hold edges from their keys on under distinct keys.
    pub rollback-create_snapshot :
        (u : String)
        → 0 < v.keep_versions
        → find taken.1 v.snapshots ≡ none
        → Grouped g0.adj
        → (g' : GraphStore W) × (rollback g taken.1 taken.0 ≡ some g')
          × (g'.nodes ≡ g0.nodes)
          × (edges_at u g' ≡ edges_at u g0)
    unfolding create_snapshot
    rollback-create_snapshot u h absent grouped =
        let snap = snapshot_of taken.1 label now (latest v) g0 in
        let found : find taken.1 taken.0.snapshots ≡ some snap =
          find-drop taken.1 (length v.snapshots + 1 - v.keep_versions) v.snapshots snap absent
            (omega arith) refl in
        (
          _,
          find_restored g taken.1 taken.0 snap found,
          nodes-restore_edges (list_edges g0) _,
          restored g g0 u grouped,
        )

-- ===== src/Graph/Store/Valid.antt =====
-- The invariant of the store and the two calls that change it.
use ligp_v.Prelude.{
  ◌≡◌, true, ◌||◌, some, List, [], ◌∷◌, ◌++◌, arith, String, ◌==◌, string_eq, contains, or_default,
  eq_iff, All, ◌⊎◌, inl, inr, sym, ◌∙◌, ap,
}
use ligp_v.Dict.{Dict, get, put, get-put, member, set_default, member-put, member-set_default}
use ligp_v.Graph.Weights.{Weighing}
use ligp_v.Graph.Store.{Node, Edge, GraphStore, ok, relation_types, add_node, add_edge, empty}
use ligp_v.Graph.Store.Edges.{Distinct, insert_edge, Distinct-insert_edge, All-insert_edge}
use ligp_v.Graph.Store.Upsert.{add_edge_written, add_node_nodes, add_node_adj, upserted}

module _ {W : Type 0} where
  -- An edge in the list of `u`: it starts at `u`, ends at a node and has a relation of the schema.
  abbrev pub Fits : Dict String (Node W) → String → String → String → String → Type 0
  Fits nodes u from to rel =
      (from ≡ u) × (member to nodes ≡ true) × (contains relation_types rel ≡ true)

  abbrev pub AllFit : Dict String (Node W) → String → List (Edge W) → Type 0
  AllFit nodes u = All (λ e. Fits nodes u e.from_node e.to_node e.relation_type)

  pub record IsWell (g : GraphStore W) : Type 0 where
    -- Every node has its two lists.
    pub covered :
        (k : String)
        → member k g.nodes ≡ true
        → (member k g.adj ≡ true) × (member k g.incoming ≡ true)
    -- Every edge fits.
    pub sound : (k : String) (es : List (Edge W)) → get k g.adj ≡ some es → AllFit g.nodes k es
    -- No edge stands twice.
    pub distinct : (k : String) (es : List (Edge W)) → get k g.adj ≡ some es → Distinct es

  AllFit-mono :
      (nodes nodes' : Dict String (Node W)) (u : String) (es : List (Edge W))
      → ((k : String) → member k nodes ≡ true → member k nodes' ≡ true)
      → AllFit nodes u es
      → AllFit nodes' u es
  AllFit-mono nodes nodes' u [] grow h = tt
  AllFit-mono nodes nodes' u (e ∷ es) grow ((a, b, c), h) =
      ((a, grow e.to_node b, c), AllFit-mono nodes nodes' u es grow h)

  pub empty-IsWell : IsWell (empty {W = W})
  unfolding get
  empty-IsWell = record { covered = λ k h. cc; sound = λ k es h. cc; distinct = λ k es h. cc }

module _ {W : Type 0} ⦃o : Weighing W⦄ where
  add_node_lists :
      (node : Node W) (g g' : GraphStore W)
      → add_node node g ≡ ok g'
      → ((member node.id g.nodes ≡ true) × (g'.adj ≡ g.adj) × (g'.incoming ≡ g.incoming))
        ⊎ ((g'.adj ≡ set_default node.id [] g.adj)
            × (g'.incoming ≡ set_default node.id [] g.incoming))
  unfolding add_node
  add_node_lists node g g' h = ground arith

  pub member-add_node :
      (node : Node W) (g g' : GraphStore W) (k : String)
      → add_node node g ≡ ok g'
      → member k g'.nodes ≡ (node.id == k || member k g.nodes)
  member-add_node node g g' k h =
      rw (add_node_nodes node g g' h)
        (member-put node.id k (upserted (get node.id g.nodes) node) g.nodes)

  add_node_covered :
      (node : Node W) (g g' : GraphStore W) (k : String)
      → add_node node g ≡ ok g'
      → IsWell g
      → member k g'.nodes ≡ true
      → (member k g'.adj ≡ true) × (member k g'.incoming ≡ true)
  add_node_covered node g g' k h w m = elim (add_node_lists node g g' h) [
    | inl (known, a, i) ↦
        rw (a, i) (w.covered k (ground (arith, member-add_node node g g' k h, eq_iff node.id k)))
    | inr (a, i) ↦
        rw (a, i)
          (ground (
            arith,
            member-add_node node g g' k h,
            member-set_default node.id k [] g.adj,
            member-set_default node.id k [] g.incoming,
            w.covered k,
          ))
  ]

  -- A successful `add_node` keeps the store well formed: every node has its two lists, every edge
  -- starts at the key of its list, ends at a node and has a relation of the schema, and no list holds
  -- two edges with one end and one relation.
  pub add_node-IsWell :
      (node : Node W) (g g' : GraphStore W) → add_node node g ≡ ok g' → IsWell g → IsWell g'
  add_node-IsWell node g g' h w = record {
    covered = λ k m. add_node_covered node g g' k h w m;
    sound = λ k es e. elim (add_node_adj node g g' k h) [
      | inl same ↦
          AllFit-mono g.nodes g'.nodes k es (λ j m. ground (arith, member-add_node node g g' j h))
            (w.sound k es (sym same ∙ e))
      | inr (absent, new) ↦ let nil : es ≡ [] = cc in rw nil tt
    ];
    distinct = λ k es e. elim (add_node_adj node g g' k h) [
      | inl same ↦ w.distinct k es (sym same ∙ e)
      | inr (absent, new) ↦ let nil : es ≡ [] = cc in rw nil tt
    ];
  }

  abbrev pub more_refs : Edge W → GraphStore W → List (String × String × String)
  more_refs edge g =
      or_default (get edge.to_node g.incoming) []
      ++ (edge.from_node, edge.to_node, edge.relation_type) ∷ []

  add_edge_refs :
      (edge : Edge W) (g g' : GraphStore W)
      → add_edge edge g ≡ ok g'
      → (g'.incoming ≡ g.incoming) ⊎ (g'.incoming ≡ put edge.to_node (more_refs edge g) g.incoming)
  unfolding add_edge
  add_edge_refs edge g g' h = ground arith

  add_edge_incoming :
      (edge : Edge W) (g g' : GraphStore W) (k : String)
      → add_edge edge g ≡ ok g'
      → member k g.incoming ≡ true
      → member k g'.incoming ≡ true
  add_edge_incoming edge g g' k h m = elim (add_edge_refs edge g g' h) [
    | inl same ↦ rw same m
    | inr e ↦ rw e (ground (arith, member-put edge.to_node k (more_refs edge g) g.incoming))
  ]

  -- The list of `k` after a successful `add_edge`: the old one, or the one that was extended.
  add_edge_list :
      (edge : Edge W) (g g' : GraphStore W) (k : String) (es : List (Edge W))
      → add_edge edge g ≡ ok g'
      → get k g'.adj ≡ some es
      → (get k g.adj ≡ some es)
        ⊎ ((old : List (Edge W)) × (edge.from_node ≡ k)
            × (get k g.adj ≡ some old)
            × (es ≡ insert_edge edge old))
  add_edge_list edge g g' k es h e =
      let (old, here, written, same, valid, there) = add_edge_written edge g g' h in
      ground (
        arith,
        ap (get k) written,
        get-put edge.from_node k (insert_edge edge old) g.adj,
        eq_iff edge.from_node k,
      )

  -- A successful `add_edge` keeps the store well formed, in the same sense.
  pub add_edge-IsWell :
      (edge : Edge W) (g g' : GraphStore W) → add_edge edge g ≡ ok g' → IsWell g → IsWell g'
  add_edge-IsWell edge g g' h w =
      let (old, here, written, same, valid, there) = add_edge_written edge g g' h in
      record {
        covered = λ k m.
            let (a, i) = w.covered k (rw same at m) in
            (
              rw written (ground (arith, member-put edge.from_node k (insert_edge edge old) g.adj)),
              add_edge_incoming edge g g' k h i,
            );
        sound = λ k es e. rw same (elim (add_edge_list edge g g' k es h e) [
          | inl kept ↦ w.sound k es kept
          | inr (old', start, had, grown) ↦ rw grown (
              All-insert_edge (Fits g.nodes k) edge old' (start, there, valid) (w.sound k old' had))
        ]);
        distinct = λ k es e. elim (add_edge_list edge g g' k es h e) [
          | inl kept ↦ w.distinct k es kept
          | inr (old', start, had, grown) ↦
              rw grown (Distinct-insert_edge edge old' (w.distinct k old' had))
        ];
      }

-- ===== src/Database/GraphRepo/Again.antt =====
-- What a key of a table holds after the graph was persisted.
use ligp_v.Prelude.{
  ◌≡◌, ◌⊎◌, refl, sym, ◌∙◌, ap, Bool, true, Option, none, some, List, [], ◌∷◌, String,
  if◌then◌else◌, arith, string_eq, ◌==◌, eq_iff, Bool-cases, inl, inr,
}
use ligp_v.Dict.{Dict, get, put, get-put}
use ligp_v.Graph.Store.{Edge, GraphStore, list_nodes, list_edges}
use ligp_v.Database.GraphRepo.{
  NodeRow, EdgeRow, Tables, node_row, edge_row, conflict, upsert_nodes, upsert_edges,
  persist_graph_to_db,
}

keyed :
    {W : Type 0} (j k : String) (row : EdgeRow W) (edges : Dict String (EdgeRow W))
    → (if j == k then some (conflict (get j edges) row) else get k edges)
      ≡ (if j == k then some (conflict (get k edges) row) else get k edges)
keyed j k row edges = ground (arith, eq_iff j k)

module _ {W : Type 0} where
  -- The row under a key, after the rows of a list were written over what was there.
  abbrev pub latest_node :
      String → List (String × String × String × W) → Option (NodeRow W) → Option (NodeRow W)
  latest_node k [] old = old
  latest_node k (n ∷ nodes) old =
      latest_node k nodes (if (node_row n).0 == k then some (node_row n).1 else old)

  abbrev pub latest_edge : String → List (Edge W) → Option (EdgeRow W) → Option (EdgeRow W)
  latest_edge k [] old = old
  latest_edge k (e ∷ edges) old =
      latest_edge k edges (if (edge_row e).0 == k then some (conflict old (edge_row e).1) else old)

  node_again :
      (k : String) (nodes : List (String × String × String × W))
      → ((a b : Option (NodeRow W)) → latest_node k nodes a ≡ latest_node k nodes b)
        ⊎ ((a : Option (NodeRow W)) → latest_node k nodes a ≡ a)
  node_again k [] = inr (λ a. refl)
  node_again k (n ∷ nodes) = elim (Bool-cases ((node_row n).0 == k)) [
    | inl here ↦ inl (λ a b. rw here refl)
    | inr other ↦ elim (node_again k nodes) [
      | inl same ↦ inl (λ a b. rw other (same a b))
      | inr kept ↦ inr (λ a. rw other (kept a))
    ]
  ]

  edge_cases :
      (k : String) (edges : List (Edge W))
      → ((a : Option (EdgeRow W)) → latest_edge k edges a ≡ a)
        ⊎ ((w : W) × (first : EdgeRow W) × ((old : EdgeRow W)
              → latest_edge k edges (some old) ≡ some (record old { weight = w }))
            × (latest_edge k edges none ≡ some (record first { weight = w })))
  edge_cases k [] = inl (λ a. refl)
  edge_cases k (e ∷ edges) = elim (Bool-cases ((edge_row e).0 == k)) [
    | inl here ↦ elim (edge_cases k edges) [
      | inl kept ↦
          inr ((edge_row e).1.weight, (edge_row e).1, λ old. rw here (kept _), rw here (kept _))
      | inr (w, first, grown, new) ↦
          inr (w, (edge_row e).1, λ old. rw here (grown _), rw here (grown _))
    ]
    | inr other ↦ elim (edge_cases k edges) [
      | inl kept ↦ inl (λ a. rw other (kept a))
      | inr (w, first, grown, new) ↦ inr (w, first, λ old. rw other (grown old), rw other new)
    ]
  ]

  edge_again :
      (k : String) (edges : List (Edge W)) (a : Option (EdgeRow W))
      → latest_edge k edges (latest_edge k edges a) ≡ latest_edge k edges a
  edge_again k edges none = elim (edge_cases k edges) [
    | inl kept ↦ kept _
    | inr (w, first, grown, new) ↦ rw new (grown _)
  ]
  edge_again k edges (some old) = elim (edge_cases k edges) [
    | inl kept ↦ kept _
    | inr (w, first, grown, new) ↦ rw (grown old) (grown _)
  ]

  node_twice :
      (k : String) (nodes : List (String × String × String × W)) (a : Option (NodeRow W))
      → latest_node k nodes (latest_node k nodes a) ≡ latest_node k nodes a
  node_twice k nodes a = elim (node_again k nodes) [ inl same ↦ same _ _ | inr kept ↦ kept _ ]

  module _ (up : Tables W → Bool) where
    upsert_nodes_lem :
        (k : String) (nodes : List (String × String × String × W)) (t : Tables W)
        → (upsert_nodes up nodes t).1 ≡ true
        → (get k (upsert_nodes up nodes t).0.nodes ≡ latest_node k nodes (get k t.nodes))
          × ((upsert_nodes up nodes t).0.edges ≡ t.edges)
    unfolding upsert_nodes
    upsert_nodes_lem k [] t h = (refl, refl)
    upsert_nodes_lem k (n ∷ nodes) t h = elim (Bool-cases (up t)) [
      | inl answers ↦
          let t' : Tables W = record t { nodes = put (node_row n).0 (node_row n).1 t.nodes } in
          let h' : (upsert_nodes up nodes t').1 ≡ true = rw (answers, upsert_nodes) at h in
          let (row, same) = upsert_nodes_lem k nodes t' h' in
          rw (answers, upsert_nodes)
            (row ∙ ap (latest_node k nodes) (get-put (node_row n).0 k (node_row n).1 t.nodes), same)
      | inr down ↦ absurd (ground (arith, down))
    ]

    put_edge :
        (k : String) (e : Edge W) (edges : Dict String (EdgeRow W))
        → get k (put (edge_row e).0 (conflict (get (edge_row e).0 edges) (edge_row e).1) edges) ≡ (
            if (edge_row e).0 == k
            then some (conflict (get k edges) (edge_row e).1)
            else get k edges)
    put_edge k e edges =
        get-put (edge_row e).0 k (conflict (get (edge_row e).0 edges) (edge_row e).1) edges
        ∙ keyed (edge_row e).0 k (edge_row e).1 edges

    upsert_edges_lem :
        (k : String) (edges : List (Edge W)) (t : Tables W)
        → (upsert_edges up edges t).1 ≡ true
        → (get k (upsert_edges up edges t).0.edges ≡ latest_edge k edges (get k t.edges))
          × ((upsert_edges up edges t).0.nodes ≡ t.nodes)
    unfolding upsert_edges
    upsert_edges_lem k [] t h = (refl, refl)
    upsert_edges_lem k (e ∷ edges) t h = elim (Bool-cases (up t)) [
      | inl answers ↦
          let t' : Tables W = record t {
            edges =
                put (edge_row e).0 (conflict (get (edge_row e).0 t.edges) (edge_row e).1) t.edges;
          } in
          let h' : (upsert_edges up edges t').1 ≡ true = rw (answers, upsert_edges) at h in
          let (row, same) = upsert_edges_lem k edges t' h' in
          rw (answers, upsert_edges) (row ∙ ap (latest_edge k edges) (put_edge k e t.edges), same)
      | inr down ↦ absurd (ground (arith, down))
    ]

    -- A success means that every statement was taken.
    all_taken :
        (url : Option String) (g : GraphStore W) (t : Tables W)
        → (persist_graph_to_db up url g t).1 ≡ true
        → let t' = (upsert_nodes up (list_nodes g) t).0 in
          ((upsert_nodes up (list_nodes g) t).1 ≡ true)
          × ((upsert_edges up (list_edges g) t').1 ≡ true)
          × (persist_graph_to_db up url g t ≡ upsert_edges up (list_edges g) t')
    unfolding persist_graph_to_db
    all_taken url g t h = ground arith

    -- When the hook reports success, a key of the node table holds the last row that the nodes of the
    -- store have for it, or what it held, and a key of the edge table what the edges of the store
    -- make of it, where an edge that was there keeps all but its weight.
    pub persist_graph_to_db_lem :
        (url : Option String) (g : GraphStore W) (t : Tables W) (k : String)
        → (persist_graph_to_db up url g t).1 ≡ true
        → let t' = (persist_graph_to_db up url g t).0 in
          (get k t'.nodes ≡ latest_node k (list_nodes g) (get k t.nodes))
          × (get k t'.edges ≡ latest_edge k (list_edges g) (get k t.edges))
    persist_graph_to_db_lem url g t k h =
        let (nodes_in, edges_in, runs) = all_taken url g t h in
        let t' = (upsert_nodes up (list_nodes g) t).0 in
        let (node, same_edges) = upsert_nodes_lem k (list_nodes g) t nodes_in in
        let (edge, same_nodes) = upsert_edges_lem k (list_edges g) t' edges_in in
        rw runs (
          ap (get k) same_nodes ∙ node,
          edge ∙ ap (λ d. latest_edge k (list_edges g) (get k d)) same_edges,
        )

    -- Persisting the same store a second time, when both report success, changes no row.
    pub persist_graph_to_db_again :
        (url : Option String) (g : GraphStore W) (t once twice : Tables W) (k : String)
        → persist_graph_to_db up url g t ≡ (once, true)
        → persist_graph_to_db up url g once ≡ (twice, true)
        → (get k twice.nodes ≡ get k once.nodes) × (get k twice.edges ≡ get k once.edges)
    persist_graph_to_db_again url g t once twice k first second =
        let (node_row_then, edge_row_then) =
          rw first at (persist_graph_to_db_lem url g t k (ap (λ r. r.1) first)) in
        let (node_row_now, edge_row_now) =
          rw second at (persist_graph_to_db_lem url g once k (ap (λ r. r.1) second)) in
        (
          node_row_now
              ∙ ap (latest_node k (list_nodes g)) node_row_then
              ∙ node_twice k (list_nodes g) (get k t.nodes)
              ∙ sym node_row_then,
          edge_row_now
              ∙ ap (latest_edge k (list_edges g)) edge_row_then
              ∙ edge_again k (list_edges g) (get k t.edges)
              ∙ sym edge_row_then,
        )

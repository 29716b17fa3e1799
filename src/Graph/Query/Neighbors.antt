-- ===== src/Graph/Query/Neighbors.antt =====
-- The soundness of the search: the walks behind what it has found.
use mathlib.Core.List.{Memᴰ}
use mathlib.Core.Path.{subst, ◌∙◌}
use ligp_v.Prelude.{
  ℕ, ◌+◌, ◌≡◌, ◌≤◌, ◌<◌, refl, true, Option, some, List, [], ◌∷◌, arith, String, is_some, string_eq,
  ◌==◌, eq_iff, leb, inl, inr, Bool-cases, All,
}
use ligp_v.Dict.{Dict, get, put, keys, values}
use ligp_v.Graph.Store.{Node, Edge, GraphStore, get_node, num_nodes}
use ligp_v.Graph.Store.Valid.{IsWell}
use ligp_v.Graph.Query.{
  Row, Search, found, out_edges, follows, offer, scan, round, loop, start, get_neighbors,
}
use ligp_v.Graph.Query.Walks.{Walk}
use ligp_v.Graph.Query.Offers.{news, frontier-offer}
use ligp_v.Graph.Query.Rounds.{loop_ends, loop_rule, unseen-le, length-keys}
use ligp_v.Graph.Query.Walks.{results-offer}
use ligp_v.Prelude.{All-append}

module _ {W : Type 0} (g : GraphStore W) (relation : Option String) (max_hops : ℕ)
    (src : String) where
  -- A row, under its key, tells of a walk within the limit.
  abbrev pub Backed : String × Row W → Type 0
  Backed p = (p.0 ≡ p.1.node_id) × (p.1.hops ≤ max_hops) × Walk g relation src p.1.hops p.1.node_id

  -- What the search has found so far is backed by walks.
  pub record IsSound (s : Search W) : Type 0 where
    pub rows : All Backed s.results
    pub ways : All (λ p. Walk g relation src p.1 p.0) s.frontier

  Backed-put :
      (k : String) (r : Row W) (d : Dict String (Row W))
      → Backed (k, r)
      → All Backed d
      → All Backed (put k r d)
  unfolding put
  Backed-put k r [] b h = (b, tt)
  Backed-put k r ((j, x) ∷ d) b (c, h) = elim (Bool-cases (j == k)) [
    | inl same ↦ rw same (((eq_iff j k).0 same ∙ b.0, b.1, b.2), h)
    | inr other ↦ rw other (c, Backed-put k r d b h)
  ]

  IsSound-offer :
      (depth : ℕ) (e : Edge W) (s : Search W) (u : String)
      → depth < max_hops
      → Walk g relation src depth u
      → Memᴰ e (out_edges u g)
      → IsSound s
      → IsSound (offer relation depth e s)
  IsSound-offer depth e s u below way m i = elim (Bool-cases (follows relation e)) [
    | inr other ↦ record {
      rows = rw (results-offer src relation depth e s, other) i.rows;
      ways = rw (frontier-offer relation depth e s, other) i.ways;
    }
    | inl hit ↦
        let step : Walk g relation src (depth + 1) e.to_node =
          subst (λ n. Walk g relation src n e.to_node) (omega arith)
            (Walk.next way (e, m, hit, refl)) in
        record {
          rows = rows_followed depth e s below hit step i.rows;
          ways = ways_followed depth e s step i.ways;
        }
  ]
    where
      rows_followed :
          (depth : ℕ) (e : Edge W) (s : Search W)
          → depth < max_hops
          → follows relation e ≡ true
          → Walk g relation src (depth + 1) e.to_node
          → All Backed s.results
          → All Backed (offer relation depth e s).results
      rows_followed depth e s below hit step h =
          elim (Bool-cases (is_some (get e.to_node s.results))) [
            | inl old ↦ rw (results-offer src relation depth e s, hit, old) h
            | inr new ↦
                rw (results-offer src relation depth e s, hit, new)
                  (Backed-put e.to_node _ s.results (refl, omega arith, step) h)
          ]

      ways_followed :
          (depth : ℕ) (e : Edge W) (s : Search W)
          → Walk g relation src (depth + 1) e.to_node
          → All (λ p. Walk g relation src p.1 p.0) s.frontier
          → All (λ p. Walk g relation src p.1 p.0) (offer relation depth e s).frontier
      ways_followed depth e s step h = elim (Bool-cases (news relation e s)) [
        | inl hit ↦
            rw (frontier-offer relation depth e s, hit)
              (All-append (λ p. Walk g relation src p.1 p.0) s.frontier
                ((e.to_node, depth + 1) ∷ []) h (step, tt))
        | inr miss ↦ rw (frontier-offer relation depth e s, miss) h
      ]

  IsSound-scan :
      (depth : ℕ) (es : List (Edge W)) (s : Search W) (u : String)
      → depth < max_hops
      → Walk g relation src depth u
      → ((e : Edge W) → Memᴰ e es → Memᴰ e (out_edges u g))
      → IsSound s
      → IsSound (scan relation depth es s)
  unfolding scan
  IsSound-scan depth [] s u below way sub i = i
  IsSound-scan depth (e ∷ es) s u below way sub i =
      IsSound-scan depth es (offer relation depth e s) u below way (λ x m. sub x (Memᴰ.tail m))
        (IsSound-offer depth e s u below way (sub e (Memᴰ.head refl)) i)

  IsSound-round :
      (s : Search W) (u : String) (depth : ℕ) (rest : List (String × ℕ))
      → IsSound s
      → s.frontier ≡ (u, depth) ∷ rest
      → IsSound (round relation max_hops g u depth (record s { frontier = rest }))
  unfolding round
  IsSound-round s u depth rest i at =
      let (way, ways) : All (λ p. Walk g relation src p.1 p.0) ((u, depth) ∷ rest) =
        subst (All (λ p. Walk g relation src p.1 p.0)) at i.ways in
      let now : IsSound (record s { frontier = rest }) = record { rows = i.rows; ways = ways } in
      elim (Bool-cases (leb max_hops depth)) [
        | inl last ↦ rw last now
        | inr inner ↦ rw inner (
            IsSound-scan depth (out_edges u g) (record s { frontier = rest }) u (ground arith) way
              (λ e m. m) now)
      ]

module _ {W : Type 0} where
  IsSound-start :
      (g : GraphStore W) (relation : Option String) (max_hops : ℕ) (src : String)
      → IsSound g relation max_hops src (start src)
  IsSound-start g relation max_hops src = record { rows = tt; ways = (Walk.here, tt) }

  pub get_neighbors_ends :
      (node_id : String) (relation : Option String) (max_hops : ℕ) (g : GraphStore W) (n : Node W)
      → IsWell g
      → get_node node_id g ≡ some n
      → (s : Search W) × (loop (num_nodes g + 1) relation max_hops g (start node_id) ≡ found s)
        × (get_neighbors node_id relation max_hops g ≡ found (values s.results))
  unfolding get_neighbors num_nodes
  get_neighbors_ends node_id relation max_hops g n well there =
      let (s, ends) =
        loop_ends g relation max_hops (num_nodes g + 1) (start node_id) well
          (omega (arith, unseen-le (node_id ∷ []) (keys g.nodes), length-keys g.nodes)) in
      (s, ends, ground arith)

  pub IsSound-loop :
      (node_id : String) (relation : Option String) (max_hops : ℕ) (g : GraphStore W) (s : Search W)
      → loop (num_nodes g + 1) relation max_hops g (start node_id) ≡ found s
      → IsSound g relation max_hops node_id s
  IsSound-loop node_id relation max_hops g s ends =
      (loop_rule g relation max_hops (IsSound g relation max_hops node_id)
        (IsSound-round g relation max_hops node_id) (num_nodes g + 1) (start node_id) s
        (IsSound-start g relation max_hops node_id) ends).0

  Backed-values :
      (g : GraphStore W) (relation : Option String) (max_hops : ℕ) (src : String)
      (d : Dict String (Row W))
      → All (Backed g relation max_hops src) d
      → All (λ r. (r.hops ≤ max_hops) × Walk g relation src r.hops r.node_id) (values d)
  Backed-values g relation max_hops src [] h = tt
  Backed-values g relation max_hops src (p ∷ d) ((k, b, w), h) =
      ((b, w), Backed-values g relation max_hops src d h)

  -- On a well-formed store and a node of it the search ends with rows, and each row is the end of a
  -- walk of `hops` edges from the node, at most `max_hops` of them, whose edges have the relation
  -- asked for, if one is asked for.
  pub get_neighbors_lem :
      (node_id : String) (relation : Option String) (max_hops : ℕ) (g : GraphStore W) (n : Node W)
      → IsWell g
      → get_node node_id g ≡ some n
      → (rows : List (Row W)) × (get_neighbors node_id relation max_hops g ≡ found rows)
        × All (λ r. (r.hops ≤ max_hops) × Walk g relation node_id r.hops r.node_id) rows
  get_neighbors_lem node_id relation max_hops g n well there =
      let (s, ends, gives) = get_neighbors_ends node_id relation max_hops g n well there in
      let sound = IsSound-loop node_id relation max_hops g s ends in
      (values s.results, gives, Backed-values g relation max_hops node_id s.results sound.rows)

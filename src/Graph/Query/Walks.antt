-- ===== src/Graph/Query/Walks.antt =====
-- Walks along the edges that a search follows, and the depth at which it has met a node.
use mathlib.Core.List.{Memᴰ}
use ligp_v.Prelude.{
  ℕ, suc, ◌+◌, ◌≡◌, Bool, true, not, ◌&&◌, Option, none, some, arith, if◌then◌else◌, String,
  is_some, string_eq, ◌==◌, eq_iff, ap,
}
use ligp_v.Dict.{get, put, get-put}
use ligp_v.Graph.Store.{Edge, GraphStore}
use ligp_v.Graph.Query.{Row, Search, out_edges, follows, offer}

module _ {W : Type 0} (g : GraphStore W) (relation : Option String) where
  -- An edge from one node to another that the search follows.
  abbrev pub Link : String → String → Type 0
  Link u v = (e : Edge W) × Memᴰ e (out_edges u g) × (follows relation e ≡ true) × (e.to_node ≡ v)

  -- The walks from a node, by their length.
  pub data Walk (src : String) : ℕ → String → Type 0 where
    here : Walk src 0 src
    next : {n : ℕ} {u v : String} → Walk src n u → Link u v → Walk src (suc n) v

-- What one edge adds to the levels.
abbrev pub met : Option ℕ → Bool → ℕ → Option ℕ
met (some d) hit depth = some d
met none hit depth = if hit then some (depth + 1) else none

module _ {W : Type 0} (src : String) where
  abbrev pub hops_of : Option (Row W) → Option ℕ
  hops_of none = none
  hops_of (some r) = some r.hops

  -- The depth at which a node was met.
  abbrev pub level : Search W → String → Option ℕ
  level s v = if src == v then some 0 else hops_of (get v s.results)

  level-put :
      (e : Edge W) (hops : ℕ) (s : Search W) (v : String) (relation : String) (weight : W)
      → level
          (record s {
            results =
                put e.to_node
                  (record {
                    node_id = e.to_node;
                    relation = relation;
                    weight = weight;
                    hops = hops;
                  })
                  s.results;
          })
          v
        ≡ (if src == v
            then some 0
            else if e.to_node == v
            then some hops
            else hops_of (get v s.results))
  level-put e hops s v relation weight = ground (
    arith,
    get-put e.to_node v
        (record { node_id = e.to_node; relation = relation; weight = weight; hops = hops })
        s.results,
  )

  pub results-offer :
      (relation : Option String) (depth : ℕ) (e : Edge W) (s : Search W)
      → (offer relation depth e s).results ≡ (
          if follows relation e && not (is_some (get e.to_node s.results))
          then put e.to_node
              (record {
                node_id = e.to_node;
                relation = e.relation_type;
                weight = e.weight;
                hops = depth + 1;
              })
              s.results
          else s.results)
  unfolding offer
  results-offer relation depth e s = ground arith

  pub level-offer :
      (relation : Option String) (depth : ℕ) (e : Edge W) (s : Search W) (v : String)
      → level (offer relation depth e s) v
        ≡ met (level s v) (follows relation e && e.to_node == v) depth
  level-offer relation depth e s v = ground (
    arith,
    ap (get v) (results-offer relation depth e s),
    get-put e.to_node v
        (record {
          node_id = e.to_node;
          relation = e.relation_type;
          weight = e.weight;
          hops = depth + 1;
        })
        s.results,
    eq_iff e.to_node v,
  )

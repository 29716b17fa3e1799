-- ===== src/Ingestion/Bootstrap/Once.antt =====
-- Rules for the loading loops of the bootstrap, and a bootstrap after another.
use ligp_v.Prelude.{
  ℕ, ◌+◌, ◌≡◌, ◌<◌, Bool, true, false, not, ◌&&◌, Option, List, [], ◌∷◌, String, ltb, arith, length,
  Bool-cases, inl, inr, ap, Option-cases, string_eq,
}
use ligp_v.Dict.{Dict, put}
use ligp_v.Graph.Weights.{nat_weighing}
use ligp_v.Graph.Store.{Node, Edge, GraphStore, Error, ok, raise, add_node, add_edge, num_nodes}
use ligp_v.Graph.Store.Upsert.{add_node_nodes, add_edge_written}
use ligp_v.Graph.Store.Valid.{IsWell, add_node-IsWell, add_edge-IsWell}
use ligp_v.Graph.Store.Errors.{Result-cases}
use ligp_v.Graph.Builders.{build_edge}
use ligp_v.Ingestion.Bootstrap.{
  SeedNode, SeedEdge, node_of, load_seed_nodes, load_seed_edges, bootstrap,
}

-- What `add_node` keeps, the loop keeps.
load_seed_nodes_rule :
    (P : GraphStore ℕ → Type 0)
    → ((n : Node ℕ) (g g' : GraphStore ℕ) → P g → add_node n g ≡ ok g' → P g')
    → (nodes : List SeedNode) (count : ℕ) (g : GraphStore ℕ) → P g
    → P (load_seed_nodes nodes count g).0
unfolding load_seed_nodes
load_seed_nodes_rule P keep [] count g w = w
load_seed_nodes_rule P keep (n ∷ nodes) count g w = elim (Result-cases (add_node (node_of n) g)) [
  | inl (e, raised) ↦ rw (raised, load_seed_nodes) w
  | inr (g', added) ↦
      rw (added, load_seed_nodes)
        (load_seed_nodes_rule P keep nodes (count + 1) g' (keep (node_of n) g g' w added))
]

load_seed_edges_rule :
    (configured : Option (Dict String ℕ)) (P : GraphStore ℕ → Type 0)
    → ((e : Edge ℕ) (g g' : GraphStore ℕ) → P g → add_edge e g ≡ ok g' → P g')
    → (edges : List SeedEdge) (count : ℕ) (g : GraphStore ℕ) → P g
    → P (load_seed_edges configured edges count g).0
unfolding load_seed_edges
load_seed_edges_rule configured P keep [] count g w = w
load_seed_edges_rule configured P keep (e ∷ edges) count g w =
    elim (Result-cases (build_edge configured e.from_node e.to_node e.relation_type e.weight)) [
      | inl (x, raised) ↦ rw (raised, load_seed_edges) w
      | inr (edge, made) ↦ elim (Result-cases (add_edge edge g)) [
        | inl (x, raised) ↦ rw (made, raised, load_seed_edges) w
        | inr (g', added) ↦
            rw (made, added, load_seed_edges)
              (load_seed_edges_rule configured P keep edges (count + 1) g' (keep edge g g' w added))
      ]
    ]

bootstrap_rule :
    (configured : Option (Dict String ℕ)) (P : GraphStore ℕ → Type 0)
    → ((e : Edge ℕ) (g g' : GraphStore ℕ) → P g → add_edge e g ≡ ok g' → P g')
    → (nodes : List SeedNode) (edges : List SeedEdge) (force : Bool) (g : GraphStore ℕ)
    → ((ltb 0 (num_nodes g) && not force) ≡ true → P g)
    → P (load_seed_nodes nodes 0 g).0
    → P (bootstrap configured nodes edges force g).0
unfolding bootstrap
bootstrap_rule configured P keep_edge nodes edges force g w loaded =
    let linked =
      load_seed_edges_rule configured P keep_edge edges 0 (load_seed_nodes nodes 0 g).0 loaded in
    elim (Bool-cases (ltb 0 (num_nodes g) && not force)) [
      | inl skip ↦ rw (skip, bootstrap) (w skip)
      | inr go ↦ elim (Option-cases (load_seed_nodes nodes 0 g).1) [
        | inl raised ↦ rw (go, raised, bootstrap) loaded
        | inr (n, done) ↦ rw (go, done, bootstrap) linked
      ]
    ]

-- A store with a node keeps one.
Inhabited : GraphStore ℕ → Type 0
Inhabited g = 0 < length g.nodes

length-put : (k : String) (n : Node ℕ) (d : Dict String (Node ℕ)) → 0 < length (put k n d)
unfolding put
length-put k n [] = omega arith
length-put k n ((j, x) ∷ d) = ground (arith)

Inhabited-add_node : (n : Node ℕ) (g g' : GraphStore ℕ) → add_node n g ≡ ok g' → Inhabited g'
unfolding Inhabited
Inhabited-add_node n g g' h = rw (add_node_nodes n g g' h) (length-put _ _ g.nodes)

Inhabited-add_edge :
    (e : Edge ℕ) (g g' : GraphStore ℕ) → Inhabited g → add_edge e g ≡ ok g' → Inhabited g'
unfolding Inhabited
Inhabited-add_edge e g g' w h =
    let (es, here, written, same, valid, there) = add_edge_written e g g' h in rw same w

module _ (configured : Option (Dict String ℕ)) where
  -- A bootstrap of a well-formed store leaves a well-formed store, whether it returns or an entry
  -- of the seed files makes it raise.
  pub bootstrap-IsWell :
      (nodes : List SeedNode) (edges : List SeedEdge) (force : Bool) (g : GraphStore ℕ)
      → IsWell g
      → IsWell (bootstrap configured nodes edges force g).0
  bootstrap-IsWell nodes edges force g w =
      bootstrap_rule configured IsWell (λ e g g' w h. add_edge-IsWell e g g' h w) nodes edges force
        g (λ skip. w)
        (load_seed_nodes_rule IsWell (λ n g g' w h. add_node-IsWell n g g' h w) nodes 0 g w)

  skipped :
      (nodes : List SeedNode) (edges : List SeedEdge) (g : GraphStore ℕ)
      → Inhabited g
      → bootstrap configured nodes edges false g ≡ (g, true)
  unfolding bootstrap num_nodes Inhabited
  skipped nodes edges g h = ground arith

  raised_first :
      (n : SeedNode) (nodes : List SeedNode) (edges : List SeedEdge) (g : GraphStore ℕ) (e : Error)
      → add_node (node_of n) g ≡ raise e
      → ltb 0 (num_nodes g) ≡ false
      → (bootstrap configured (n ∷ nodes) edges false g).1 ≡ false
  unfolding bootstrap load_seed_nodes
  raised_first n nodes edges g e raised empty = ground (arith, raised, empty)

  loaded_first :
      (n : SeedNode) (nodes : List SeedNode) (g g' : GraphStore ℕ)
      → add_node (node_of n) g ≡ ok g'
      → Inhabited (load_seed_nodes (n ∷ nodes) 0 g).0
  unfolding load_seed_nodes
  loaded_first n nodes g g' added =
      rw (added, load_seed_nodes)
        (load_seed_nodes_rule Inhabited (λ m h h' w k. Inhabited-add_node m h h' k) nodes 1 g'
          (Inhabited-add_node (node_of n) g g' added))

  Inhabited-bootstrap :
      (n : SeedNode) (nodes : List SeedNode) (edges : List SeedEdge) (g : GraphStore ℕ)
      → (bootstrap configured (n ∷ nodes) edges false g).1 ≡ true
      → Inhabited (bootstrap configured (n ∷ nodes) edges false g).0
  Inhabited-bootstrap n nodes edges g done = elim (Bool-cases (ltb 0 (num_nodes g))) [
    | inl old ↦
        let some_node : Inhabited g = unfold num_nodes Inhabited in ground arith in
        rw (skipped (n ∷ nodes) edges g some_node) some_node
    | inr empty ↦ elim (Result-cases (add_node (node_of n) g)) [
      | inl (e, raised) ↦ absurd (ground (arith, raised_first n nodes edges g e raised empty, done))
      | inr (g', added) ↦
          bootstrap_rule configured Inhabited Inhabited-add_edge (n ∷ nodes) edges false g
            (λ skip. absurd (ground (arith, skip, empty))) (loaded_first n nodes g g' added)
    ]
  ]

  -- Without `force`, a bootstrap that follows one that loaded at least one node changes nothing,
  -- whatever the seed files hold by then.
  pub bootstrap_once :
      (n : SeedNode) (nodes later : List SeedNode) (edges later_edges : List SeedEdge)
      (g h : GraphStore ℕ)
      → bootstrap configured (n ∷ nodes) edges false g ≡ (h, true)
      → bootstrap configured later later_edges false h ≡ (h, true)
  bootstrap_once n nodes later edges later_edges g h run =
      skipped later later_edges h
        (rw run at (Inhabited-bootstrap n nodes edges g (ap (λ x. x.1) run)))

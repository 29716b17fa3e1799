-- ===== src/Graph/Query/Complete.antt =====
-- The completeness of the search: walks, and the levels at the end of the loop.
use mathlib.Core.List.{Memᴰ}
use mathlib.Core.List.Memᴰ
use mathlib.Core.Path.{subst, ◌∙◌}
use ligp_v.Prelude.{
  ℕ, zero, suc, ◌+◌, ◌≡◌, ◌≢◌, ◌≤◌, Option, none, some, List, [], ◌∷◌, arith, if◌then◌else◌, String,
  string_eq, ◌==◌, eq_iff, ap, sym, inl, inr, Option-cases, Bool-cases, All,
}
use ligp_v.Dict.{Dict, get, values}
use ligp_v.Graph.Store.{Node, GraphStore, get_node, num_nodes}
use ligp_v.Graph.Store.Valid.{IsWell}
use ligp_v.Graph.Query.{Row, Search, found, loop, start, get_neighbors}
use ligp_v.Graph.Query.Walks.{Walk, level}
use ligp_v.Graph.Query.Levels.{Inv, Inv-round}
use ligp_v.Graph.Query.Rounds.{loop_rule}
use ligp_v.Graph.Query.Neighbors.{Backed, IsSound-loop, get_neighbors_ends}

only_start :
    (src v : String) (d : ℕ)
    → (if src == v then some 0 else none) ≡ some d
    → ◌≡◌ {A = String × ℕ} (v, d) (src, 0)
only_start src v d h = let (node, hops) : (v ≡ src) × (d ≡ 0) = ground (arith, eq_iff src v) in cc

module _ {W : Type 0} where
  Inv-start :
      (g : GraphStore W) (relation : Option String) (max_hops : ℕ) (src : String)
      → Inv g relation max_hops src [] 0 (start src)
  unfolding get
  Inv-start g relation max_hops src = record {
    seen = λ v. ground arith;
    bounded = λ v d h. ground arith;
    ordered = (omega arith, omega arith, tt);
    closed = λ v d h. inl (Memᴰ.head (only_start src v d (ground arith)));
  }

  -- The row under a key.
  row_of :
      (g : GraphStore W) (relation : Option String) (max_hops : ℕ) (src k : String)
      (d : Dict String (Row W)) (r : Row W)
      → All (Backed g relation max_hops src) d
      → get k d ≡ some r
      → Memᴰ r (values d) × (r.node_id ≡ k)
  unfolding get
  row_of g relation max_hops src k [] r h at = absurd (ground arith)
  row_of g relation max_hops src k ((j, x) ∷ d) r (b, h) at = elim (Bool-cases (j == k)) [
    | inl same ↦
        let this : x ≡ r = ground arith in
        (
          Memᴰ.head (sym this),
          ap (λ (y : Row W). y.node_id) (sym this) ∙ sym b.0 ∙ (eq_iff j k).0 same,
        )
    | inr other ↦
        let (m, node) = row_of g relation max_hops src k d r h (rw (other, get) at at) in
        (Memᴰ.tail m, node)
  ]

module _ {W : Type 0} (g : GraphStore W) (relation : Option String) (max_hops : ℕ)
    (src : String) where
  -- When the frontier is empty, a walk within the limit has given its end a level.
  reached :
      (lo : ℕ) (s : Search W) (length : ℕ) (v : String)
      → Inv g relation max_hops src [] lo s
      → s.frontier ≡ []
      → Walk g relation src length v
      → length ≤ max_hops
      → (d : ℕ) × (level src s v ≡ some d) × (d ≤ length)
  reached lo s zero v i none_left Walk.here h = (0, ground (arith, eq_iff src src), omega arith)
  reached lo s (suc n) v i none_left (Walk.next {u = u} way link) h =
      let (d, at, near) = reached lo s n u i none_left way (omega arith) in
      elim (i.closed u d at) [
        | inl m ↦ absurd (Memᴰ.not-nil (subst (λ f. Memᴰ (u, d) f) none_left m))
        | inr done ↦ let (d', at', near') = done (omega arith) v link in (d', at', omega arith)
      ]

  row-level :
      (s : Search W) (v : String) (d : ℕ)
      → v ≢ src
      → level src s v ≡ some d
      → (r : Row W) × (get v s.results ≡ some r) × (r.hops ≡ d)
  row-level s v d other h = elim (Option-cases (get v s.results)) [
    | inl empty ↦ absurd (ground (arith, eq_iff src v))
    | inr (r, at) ↦ (r, at, ground (arith, eq_iff src v))
  ]

  Inv_end :
      (s : Search W)
      → loop (num_nodes g + 1) relation max_hops g (start src) ≡ found s
      → ((lo : ℕ) × Inv g relation max_hops src [] lo s) × (s.frontier ≡ [])
  Inv_end s ends =
      loop_rule g relation max_hops (λ s. (lo : ℕ) × Inv g relation max_hops src [] lo s)
        (λ s u depth rest i at.
          (depth, Inv-round g relation max_hops src i.0 depth u rest s i.1 at))
        (num_nodes g + 1) (start src) s (0, Inv-start g relation max_hops src) ends

module _ {W : Type 0} where
  -- On a well-formed store the rows of a node are complete: a walk of at most `max_hops` such edges
  -- to another node gives a row of that node, whose `hops` is at most the length of the walk.
  pub get_neighbors_complete :
      (node_id : String) (relation : Option String) (max_hops : ℕ) (g : GraphStore W) (n : Node W)
      (steps : ℕ) (v : String)
      → IsWell g
      → get_node node_id g ≡ some n
      → Walk g relation node_id steps v
      → steps ≤ max_hops
      → v ≢ node_id
      → (rows : List (Row W)) × (get_neighbors node_id relation max_hops g ≡ found rows)
        × ((r : Row W) × Memᴰ r rows × (r.node_id ≡ v) × (r.hops ≤ steps))
  get_neighbors_complete node_id relation max_hops g n steps v well there way h other =
      let (s, ends, gives) = get_neighbors_ends node_id relation max_hops g n well there in
      let (i, none_left) = Inv_end g relation max_hops node_id s ends in
      let (d, at, near) = reached g relation max_hops node_id i.0 s steps v i.1 none_left way h in
      let (r, row, hops) = row-level g relation max_hops node_id s v d other at in
      let sound = IsSound-loop node_id relation max_hops g s ends in
      let (m, node) = row_of g relation max_hops node_id v s.results r sound.rows row in
      (values s.results, gives, (r, m, node, omega arith))

-- ===== src/Graph/Propagation/Generations.antt =====
-- The scores as sums over the walks, generation by generation, and the queue that computes them.
use mathlib.Core.List.{append-nil, append_assoc}
use ligp_v.Prelude.{
  All-append, ◌∙◌, ℕ, zero, suc, ◌+◌, ◌-◌, ◌≡◌, ◌≤◌, ◌<◌, refl, false, Option, none, some, List, [],
  ◌∷◌, ◌++◌, arith, if◌then◌else◌, String, leb, or_default, string_eq, ◌==◌, eq_iff, All, length,
  Bool-cases, ap, sym, inl, inr,
}
use ligp_v.Dict.{Dict, get, remove, get-put, get-remove}
use ligp_v.Graph.Store.{Node, GraphStore, get_node}
use ligp_v.Graph.Propagation.{
  Scale, Entry, found, edges_from, credit, spread, round, loop, seed, propagate,
}

module _ {W : Type 0} ⦃o : Scale W⦄ where
  -- The steps from an entry that carry something on.
  abbrev pub steps : W → W → ℕ → List (String × W) → List (Entry W)
  steps hop_decay influence depth [] = []
  steps hop_decay influence depth ((neighbor, weight) ∷ pairs) =
      let contributed = o.mul (o.mul influence weight) hop_decay in
      let rest = steps hop_decay influence depth pairs in
      if o.at_most contributed o.zero_of
      then rest
      else record { node = neighbor; influence = contributed; depth = depth + 1 } ∷ rest

  -- The next generation of walks, in order.
  abbrev pub brood : W → GraphStore W → List (Entry W) → List (Entry W)
  brood hop_decay g [] = []
  brood hop_decay g (e ∷ es) =
      steps hop_decay e.influence e.depth (edges_from e.node g) ++ brood hop_decay g es

  -- The walks of one to `hops` steps, the shorter ones first.
  abbrev pub generations : ℕ → W → GraphStore W → List (Entry W) → List (Entry W)
  generations zero hop_decay g es = []
  generations (suc hops) hop_decay g es =
      let next = brood hop_decay g es in next ++ generations hops hop_decay g next

  -- The rounds that these walks take, with those that are cut off.
  abbrev pub rounds : ℕ → W → GraphStore W → List (Entry W) → ℕ
  rounds zero hop_decay g es = length es
  rounds (suc hops) hop_decay g es = length es + rounds hops hop_decay g (brood hop_decay g es)

  -- The sum of the influence that arrives at a node, in the order of arrival.
  abbrev pub arrived : String → Option W → List (Entry W) → Option W
  arrived v acc [] = acc
  arrived v acc (e ∷ es) =
      arrived v (if e.node == v then some (o.add (or_default acc o.zero_of) e.influence) else acc)
        es

  abbrev pub credit_all : List (Entry W) → Dict String W → Dict String W
  credit_all [] scores = scores
  credit_all (e ∷ es) scores = credit_all es (credit e.node e.influence scores)

  get-credit_all :
      (es : List (Entry W)) (scores : Dict String W) (v : String)
      → get v (credit_all es scores) ≡ arrived v (get v scores) es
  get-credit_all [] scores v = refl
  get-credit_all (e ∷ es) scores v =
      let first : get v (credit e.node e.influence scores) ≡ (
          if e.node == v
          then some (o.add (or_default (get v scores) o.zero_of) e.influence)
          else get v scores) =
        ground (
          arith,
          get-put e.node v (o.add (or_default (get e.node scores) o.zero_of) e.influence) scores,
          eq_iff e.node v,
        ) in
      rw (get-credit_all es (credit e.node e.influence scores) v, first) refl

  spread-steps :
      (hop_decay influence : W) (depth : ℕ) (pairs : List (String × W)) (scores : Dict String W)
      (frontier : List (Entry W))
      → spread hop_decay influence depth pairs (scores, frontier) ≡ (
        credit_all (steps hop_decay influence depth pairs) scores,
        frontier ++ steps hop_decay influence depth pairs,
      )
  unfolding spread
  spread-steps hop_decay influence depth [] scores frontier = rw append-nil refl
  spread-steps hop_decay influence depth ((n, w) ∷ pairs) scores frontier =
      let here : Entry W = record {
        node = n;
        influence = o.mul (o.mul influence w) hop_decay;
        depth = depth + 1;
      } in
      elim (Bool-cases (o.at_most (o.mul (o.mul influence w) hop_decay) o.zero_of)) [
        | inl dropped ↦ rw (dropped) (spread-steps hop_decay influence depth pairs scores frontier)
        | inr kept ↦
            rw
              (
                kept,
                spread-steps hop_decay influence depth pairs (credit n here.influence scores)
                    (frontier ++ here ∷ []),
                append_assoc,
              )
              refl
      ]

  credit_all-append :
      (es fs : List (Entry W)) (scores : Dict String W)
      → credit_all (es ++ fs) scores ≡ credit_all fs (credit_all es scores)
  credit_all-append [] fs scores = refl
  credit_all-append (e ∷ es) fs scores = credit_all-append es fs (credit e.node e.influence scores)

-- `length es + fuel`, by clauses.
abbrev longer : {A : Type 0} → List A → ℕ → ℕ
longer [] fuel = fuel
longer (e ∷ es) fuel = suc (longer es fuel)

longer_lem : {A : Type 0} (es : List A) (fuel : ℕ) → longer es fuel ≡ length es + fuel
longer_lem [] fuel = omega arith
longer_lem (e ∷ es) fuel = omega (arith, longer_lem es fuel)

module _ {W : Type 0} ⦃o : Scale W⦄ (hop_decay : W) (hops : ℕ) (g : GraphStore W) where
  -- The entries of one depth are worked off in turn, and their broods queue behind the others.
  loop-brood :
      (es fs : List (Entry W)) (fuel : ℕ) (scores : Dict String W)
      → All (λ e. e.depth < hops) es
      → loop (longer es fuel) hop_decay hops g (scores, es ++ fs)
        ≡ loop fuel hop_decay hops g
            (credit_all (brood hop_decay g es) scores, fs ++ brood hop_decay g es)
  unfolding loop round
  loop-brood [] fs fuel scores h = rw append-nil refl
  loop-brood (e ∷ es) fs fuel scores (below, h) =
      let next = steps hop_decay e.influence e.depth (edges_from e.node g) in
      let inner : leb hops e.depth ≡ false = ground arith in
      let later = loop-brood es (fs ++ next) fuel (credit_all next scores) h in
      rw
        (
          inner,
          spread-steps hop_decay e.influence e.depth (edges_from e.node g) scores (es ++ fs),
          append_assoc,
          later,
          append_assoc,
          credit_all-append,
        )
        refl

  -- The entries at the limit are only taken off.
  loop-limit :
      (es : List (Entry W)) (fuel : ℕ) (scores : Dict String W)
      → All (λ e. hops ≤ e.depth) es
      → loop (longer es fuel) hop_decay hops g (scores, es) ≡ found scores
  unfolding loop round
  loop-limit [] zero scores h = refl
  loop-limit [] (suc fuel) scores h = refl
  loop-limit (e ∷ es) fuel scores (at, h) = ground (arith, loop-limit es fuel scores h)

  -- All entries stand at one depth, and the next generation one deeper.
  abbrev AtDepth : ℕ → List (Entry W) → Type 0
  AtDepth d = All (λ e. e.depth ≡ d)

  AtDepth-steps :
      (influence : W) (d : ℕ) (pairs : List (String × W))
      → AtDepth (d + 1) (steps hop_decay influence d pairs)
  AtDepth-steps influence d [] = tt
  AtDepth-steps influence d ((n, w) ∷ pairs) =
      elim (Bool-cases (o.at_most (o.mul (o.mul influence w) hop_decay) o.zero_of)) [
        | inl dropped ↦ rw dropped (AtDepth-steps influence d pairs)
        | inr kept ↦ rw kept (refl, AtDepth-steps influence d pairs)
      ]

  AtDepth-brood :
      (d : ℕ) (es : List (Entry W)) → AtDepth d es → AtDepth (d + 1) (brood hop_decay g es)
  AtDepth-brood d [] h = tt
  AtDepth-brood d (e ∷ es) (at, h) =
      All-append (λ e. e.depth ≡ d + 1) (steps hop_decay e.influence e.depth (edges_from e.node g))
        (brood hop_decay g es)
        (rw (ap (λ k. k + 1) (sym at)) (AtDepth-steps e.influence e.depth (edges_from e.node g)))
        (AtDepth-brood d es h)

  below : (d : ℕ) (es : List (Entry W)) → d < hops → AtDepth d es → All (λ e. e.depth < hops) es
  below d [] h at = tt
  below d (e ∷ es) h (at, rest) = (omega arith, below d es h rest)

  at_limit : (d : ℕ) (es : List (Entry W)) → hops ≤ d → AtDepth d es → All (λ e. hops ≤ e.depth) es
  at_limit d [] h at = tt
  at_limit d (e ∷ es) h (at, rest) = (omega arith, at_limit d es h rest)

  -- The loop gives every walk's influence to its end, and takes as many rounds as there are walks.
  loop-generations :
      (left d : ℕ) (es : List (Entry W)) (extra : ℕ) (scores : Dict String W)
      → AtDepth d es
      → d + left ≡ hops
      → loop (rounds left hop_decay g es + extra) hop_decay hops g (scores, es)
        ≡ found (credit_all (generations left hop_decay g es) scores)
  loop-generations zero d es extra scores at h =
      rw (sym (longer_lem es extra)) (loop-limit es extra scores (at_limit d es (omega arith) at))
  loop-generations (suc left) d es extra scores at h =
      let next = brood hop_decay g es in
      let fuel : rounds (suc left) hop_decay g es + extra
          ≡ longer es (rounds left hop_decay g next + extra) =
        omega (arith, longer_lem es (rounds left hop_decay g next + extra)) in
      let first : loop (longer es (rounds left hop_decay g next + extra)) hop_decay hops g
            (scores, es)
          ≡ loop (rounds left hop_decay g next + extra) hop_decay hops g
              (credit_all next scores, next) =
        rw append-nil at (
          loop-brood es [] (rounds left hop_decay g next + extra) scores
            (below d es (omega arith) at)) in
      let rest =
        loop-generations left (d + 1) next extra (credit_all next scores) (AtDepth-brood d es at)
          (omega arith) in
      rw (fuel, first, rest, credit_all-append) refl

module _ {W : Type 0} ⦃o : Scale W⦄ where
  -- With as many rounds as there are walks of at most `hops` steps, or more, the propagation from a
  -- node returns, and the score of every other node is the sum, in breadth-first order, of the
  -- influence that the walks of one to `hops` steps carry to it; the node itself has no score.
  pub propagate_lem :
      (hop_decay : W) (g : GraphStore W) (node_id : String) (hops fuel : ℕ) (n : Node W)
      (v : String)
      → get_node node_id g ≡ some n
      → rounds hops hop_decay g (seed node_id ∷ []) ≤ fuel
      → (scores : Dict String W) × (propagate fuel hop_decay g node_id hops ≡ found scores)
        × (get v scores ≡ (
            if node_id == v
            then none
            else arrived v none (generations hops hop_decay g (seed node_id ∷ []))))
  unfolding propagate get
  propagate_lem hop_decay g node_id hops fuel n v there h =
      let walks = generations hops hop_decay g (seed node_id ∷ []) in
      let total = rounds hops hop_decay g (seed node_id ∷ []) in
      let ends : loop fuel hop_decay hops g ([], seed node_id ∷ []) ≡ found (credit_all walks []) =
        ap (λ k. loop k hop_decay hops g ([], seed node_id ∷ [])) (omega arith)
        ∙ loop-generations hop_decay hops g hops 0 (seed node_id ∷ []) (fuel - total) [] (refl, tt)
            (omega arith) in
      (
        remove node_id (credit_all walks []),
        ground (arith, there, ends),
        rw (get-remove node_id v (credit_all walks []), get-credit_all walks [] v) refl,
      )

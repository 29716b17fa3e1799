-- ===== src/Graph/Query/Levels.antt =====
-- The invariant of the search: the nodes met are those with a level, the frontier is ordered by
-- depth, and a node that has left the frontier has passed its level on.
use mathlib.Core.List.{Memᴰ}
use mathlib.Core.List.Memᴰ
use mathlib.Core.Path.{subst}
use ligp_v.Prelude.{
  ℕ, ◌+◌, ◌≡◌, ◌⊎◌, ◌≤◌, ◌<◌, true, false, Option, none, some, List, [], ◌∷◌, ◌++◌, arith, String,
  contains, is_some, string_eq, eq_iff, ap, sym, leb, inl, inr, Option-cases, Bool-cases,
}
use ligp_v.Graph.Store.{Edge, GraphStore}
use ligp_v.Graph.Query.{Search, out_edges, follows, offer, scan, round}
use ligp_v.Graph.Query.Walks.{Link, level, level-offer}
use ligp_v.Graph.Query.Offers.{
  Ordered, Ordered-append, Ordered-mono, news, frontier-offer, contains-offer,
}

module _ {W : Type 0} (g : GraphStore W) (relation : Option String) (max_hops : ℕ)
    (src : String) where
  -- A node at a depth below the limit has passed its level on.
  abbrev pub Done : Search W → String → ℕ → Type 0
  Done s v d =
      d < max_hops
      → (w : String) → Link g relation v w
      → (d' : ℕ) × (level src s w ≡ some d') × (d' ≤ d + 1)

  -- The entry that has left the frontier, if any, stands in `taken`.
  pub record Inv (taken : List (String × ℕ)) (lo : ℕ) (s : Search W) : Type 0 where
    pub seen : (v : String) → contains s.visited v ≡ is_some (level src s v)
    pub bounded : (v : String) (d : ℕ) → level src s v ≡ some d → d ≤ lo + 1
    pub ordered : Ordered lo (lo + 1) s.frontier
    pub closed :
        (v : String) (d : ℕ)
        → level src s v ≡ some d
        → Memᴰ (v, d) (taken ++ s.frontier) ⊎ Done s v d

  level-offer_old :
      (depth : ℕ) (e : Edge W) (s : Search W) (v : String) (d : ℕ)
      → level src s v ≡ some d
      → level src (offer relation depth e s) v ≡ some d
  level-offer_old depth e s v d h = ground (arith, level-offer src relation depth e s v)

  level-offer_target :
      (depth : ℕ) (e : Edge W) (s : Search W)
      → ((v : String) (d : ℕ) → level src s v ≡ some d → d ≤ depth + 1)
      → follows relation e ≡ true
      → (d' : ℕ) × (level src (offer relation depth e s) e.to_node ≡ some d') × (d' ≤ depth + 1)
  level-offer_target depth e s bounded h = elim (Option-cases (level src s e.to_node)) [
    | inl new ↦ (
      depth + 1,
      ground (arith, level-offer src relation depth e s e.to_node, eq_iff e.to_node e.to_node),
      omega arith,
    )
    | inr (d, old) ↦ (d, level-offer_old depth e s e.to_node d old, bounded e.to_node d old)
  ]

  Done-offer :
      (depth : ℕ) (e : Edge W) (s : Search W) (v : String) (d : ℕ)
      → Done s v d
      → Done (offer relation depth e s) v d
  Done-offer depth e s v d done below w l =
      let (d', at, h) = done below w l in (d', level-offer_old depth e s w d' at, h)

  frontier_keeps :
      (depth : ℕ) (e : Edge W) (s : Search W) (p : String × ℕ)
      → Memᴰ p s.frontier
      → Memᴰ p (offer relation depth e s).frontier
  frontier_keeps depth e s p m = elim (Bool-cases (news relation e s)) [
    | inl hit ↦
        rw (frontier-offer relation depth e s, hit)
          (Memᴰ.append_left ((e.to_node, depth + 1) ∷ []) m)
    | inr miss ↦ rw (frontier-offer relation depth e s, miss) m
  ]

  queued-offer :
      (depth : ℕ) (e : Edge W) (s : Search W) (taken : List (String × ℕ)) (p : String × ℕ)
      → Memᴰ p (taken ++ s.frontier)
      → Memᴰ p (taken ++ (offer relation depth e s).frontier)
  queued-offer depth e s taken p m = elim (Memᴰ.append_cases taken m) [
    | inl there ↦ Memᴰ.append_left (offer relation depth e s).frontier there
    | inr queued ↦ Memᴰ.append_right taken (frontier_keeps depth e s p queued)
  ]

  gained :
      (depth : ℕ) (e : Edge W) (s : Search W) (v : String) (d : ℕ)
      → level src s v ≡ none
      → level src (offer relation depth e s) v ≡ some d
      → (follows relation e ≡ true) × (e.to_node ≡ v) × (d ≡ depth + 1)
  gained depth e s v d new h =
      ground (arith, level-offer src relation depth e s v, eq_iff e.to_node v)

  Ordered-offer :
      (depth : ℕ) (e : Edge W) (s : Search W)
      → Ordered depth (depth + 1) s.frontier
      → Ordered depth (depth + 1) (offer relation depth e s).frontier
  Ordered-offer depth e s h = elim (Bool-cases (news relation e s)) [
    | inl hit ↦
        rw (frontier-offer relation depth e s, hit)
          (Ordered-append depth (depth + 1) s.frontier e.to_node (omega arith) h)
    | inr miss ↦ rw (frontier-offer relation depth e s, miss) h
  ]

  -- A node that gets a level is queued with it.
  frontier_gains :
      (depth : ℕ) (e : Edge W) (s : Search W) (v : String) (d : ℕ)
      → contains s.visited v ≡ is_some (level src s v)
      → level src s v ≡ none
      → level src (offer relation depth e s) v ≡ some d
      → Memᴰ (v, d) (offer relation depth e s).frontier
  frontier_gains depth e s v d seen new h =
      let (hit, at, d_eq) = gained depth e s v d new h in
      let unseen : contains s.visited e.to_node ≡ false = rw at (rw new at seen) in
      let queued : news relation e s ≡ true = ground (arith, hit, unseen) in
      let same : (v, d) ≡ (e.to_node, depth + 1) = cc in
      rw (frontier-offer relation depth e s, queued) (Memᴰ.append_right s.frontier (Memᴰ.head same))

  pub Inv-offer :
      (taken : List (String × ℕ)) (depth : ℕ) (e : Edge W) (s : Search W)
      → Inv taken depth s
      → Inv taken depth (offer relation depth e s)
  Inv-offer taken depth e s i = record {
    seen = λ v. ground (
      arith,
      contains-offer relation depth e s v,
      level-offer src relation depth e s v,
      i.seen v,
    );
    bounded = λ v d h. ground (arith, level-offer src relation depth e s v, i.bounded v d);
    ordered = Ordered-offer depth e s i.ordered;
    closed = λ v d h. elim (Option-cases (level src s v)) [
      | inl new ↦ inl (Memᴰ.append_right taken (frontier_gains depth e s v d (i.seen v) new h))
      | inr (d', old) ↦ elim (i.closed v d (ground (arith, level-offer_old depth e s v d' old))) [
        | inl m ↦ inl (queued-offer depth e s taken (v, d) m)
        | inr done ↦ inr (Done-offer depth e s v d done)
      ]
    ];
  }

  Done-scan :
      (depth : ℕ) (es : List (Edge W)) (s : Search W) (v : String) (d : ℕ)
      → Done s v d
      → Done (scan relation depth es s) v d
  unfolding scan
  Done-scan depth [] s v d done = done
  Done-scan depth (e ∷ es) s v d done =
      Done-scan depth es (offer relation depth e s) v d (Done-offer depth e s v d done)

  level-scan_old :
      (depth : ℕ) (es : List (Edge W)) (s : Search W) (v : String) (d : ℕ)
      → level src s v ≡ some d
      → level src (scan relation depth es s) v ≡ some d
  unfolding scan
  level-scan_old depth [] s v d h = h
  level-scan_old depth (e ∷ es) s v d h =
      level-scan_old depth es (offer relation depth e s) v d (level-offer_old depth e s v d h)

  pub Inv-scan :
      (taken : List (String × ℕ)) (depth : ℕ) (es : List (Edge W)) (s : Search W)
      → Inv taken depth s
      → Inv taken depth (scan relation depth es s)
  unfolding scan
  Inv-scan taken depth [] s i = i
  Inv-scan taken depth (e ∷ es) s i =
      Inv-scan taken depth es (offer relation depth e s) (Inv-offer taken depth e s i)

  -- The end of every edge that was followed has a level.
  level-scan_target :
      (taken : List (String × ℕ)) (depth : ℕ) (es : List (Edge W)) (s : Search W) (e : Edge W)
      → Inv taken depth s
      → Memᴰ e es
      → follows relation e ≡ true
      → (d' : ℕ) × (level src (scan relation depth es s) e.to_node ≡ some d') × (d' ≤ depth + 1)
  unfolding scan
  level-scan_target taken depth [] s e i m hit = elim m [ ]
  level-scan_target taken depth (x ∷ es) s e i (Memᴰ.head at) hit =
      let (d, first, h) = level-offer_target depth e s i.bounded hit in
      let now : level src (offer relation depth x s) e.to_node ≡ some d = rw (sym at) first in
      (d, level-scan_old depth es (offer relation depth x s) e.to_node d now, h)
  level-scan_target taken depth (x ∷ es) s e i (Memᴰ.tail m) hit =
      level-scan_target taken depth es (offer relation depth x s) e (Inv-offer taken depth x s i) m
        hit

  -- The entry that was taken has passed its level on.
  settle :
      (depth : ℕ) (u : String) (s : Search W)
      → Inv ((u, depth) ∷ []) depth s
      → Done s u depth
      → Inv [] depth s
  settle depth u s i done = record {
    seen = i.seen;
    bounded = i.bounded;
    ordered = i.ordered;
    closed = λ v d h. elim (i.closed v d h) [
      | inl (Memᴰ.head same) ↦ inr (done_same v d same)
      | inl (Memᴰ.tail m) ↦ inl m
      | inr left ↦ inr left
    ];
  }
    where
      done_same : (v : String) (d : ℕ) → ◌≡◌ {A = String × ℕ} (v, d) (u, depth) → Done s v d
      done_same v d same =
          let node : v ≡ u = ap (λ p. p.0) same in
          let hops : d ≡ depth = ap (λ p. p.1) same in rw (node, hops) done

  take_entry :
      (lo depth : ℕ) (u : String) (rest : List (String × ℕ)) (s : Search W)
      → Inv [] lo s
      → s.frontier ≡ (u, depth) ∷ rest
      → Inv ((u, depth) ∷ []) depth (record s { frontier = rest })
  take_entry lo depth u rest s i at =
      let (low, high, after) : Ordered lo (lo + 1) ((u, depth) ∷ rest) =
        subst (Ordered lo (lo + 1)) at i.ordered in
      record {
        seen = i.seen;
        bounded = λ v d h. omega (arith, i.bounded v d h);
        ordered = Ordered-mono depth (lo + 1) (depth + 1) rest (omega arith) after;
        closed = λ v d h. elim (i.closed v d h) [
          | inl m ↦ inl (subst (λ f. Memᴰ (v, d) f) at m)
          | inr left ↦ inr left
        ];
      }

  -- A round takes an entry from the frontier and passes its level on.
  pub Inv-round :
      (lo depth : ℕ) (u : String) (rest : List (String × ℕ)) (s : Search W)
      → Inv [] lo s
      → s.frontier ≡ (u, depth) ∷ rest
      → Inv [] depth (round relation max_hops g u depth (record s { frontier = rest }))
  unfolding round
  Inv-round lo depth u rest s i at =
      let taken = take_entry lo depth u rest s i at in
      elim (Bool-cases (leb max_hops depth)) [
        | inl last ↦ rw last (
            settle depth u (record s { frontier = rest }) taken
              (λ below w l. absurd (ground arith)))
        | inr inner ↦ rw inner (
            settle depth u (scan relation depth (out_edges u g) (record s { frontier = rest }))
              (Inv-scan ((u, depth) ∷ []) depth (out_edges u g) (record s { frontier = rest })
                taken)
              (λ below w (e, m, hit, to). rw (sym to) (
                level-scan_target ((u, depth) ∷ []) depth (out_edges u g)
                  (record s { frontier = rest }) e taken m hit)))
      ]

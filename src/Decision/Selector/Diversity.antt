-- ===== src/Decision/Selector/Diversity.antt =====
-- The limits that a selection keeps, and what it may leave out.
use ligp_v.Prelude.{
  ℕ, zero, suc, ◌+◌, ◌-◌, ◌≤◌, ◌≡◌, min, none, some, List, [], ◌∷◌, arith, if◌then◌else◌, String,
  length, leb, or_default, take, string_eq, ◌==◌, eq_iff, Option-cases, inl, inr, length-take,
}
use ligp_v.Dict.{Dict, get, put, get-put}
use ligp_v.Graph.Weights.{Weighing}
use ligp_v.Decision.Selector.{
  Candidate, topic_of, diversity_loop, enforce_diversity, apply_quota, scored, candidates_of,
  sort_loop, select,
}

abbrev seen : String → Dict String ℕ → ℕ
seen t counts = or_default (get t counts) 0

seen-put :
    (t u : String) (n : ℕ) (counts : Dict String ℕ)
    → seen t (put u n counts) ≡ (if u == t then n else seen t counts)
seen-put t u n counts = ground (arith, get-put u t n counts)

add_seen : (m k n : ℕ) → min (m - k) (suc n) ≡ (if leb m k then 0 else suc (min (m - (k + 1)) n))
add_seen m k n = ground arith

module _ {W : Type 0} where
  -- How many candidates have a topic.
  abbrev pub count : String → List (Candidate W) → ℕ
  count t [] = 0
  count t (c ∷ cs) = let rest = count t cs in if topic_of c == t then suc rest else rest

  count-diversity_loop :
      (t : String) (m : ℕ) (counts : Dict String ℕ) (cs : List (Candidate W))
      → count t (diversity_loop m counts cs) ≡ min (m - seen t counts) (count t cs)
  unfolding diversity_loop
  count-diversity_loop t m counts [] = ground arith
  count-diversity_loop t m counts (c ∷ cs) = ground (
    arith,
    eq_iff (topic_of c) t,
    seen-put t (topic_of c) (seen (topic_of c) counts + 1) counts,
    count-diversity_loop t m counts cs,
    count-diversity_loop t m (put (topic_of c) (seen (topic_of c) counts + 1) counts) cs,
  )

  -- Of every topic, `enforce_diversity` keeps as many candidates as the limit allows: the lesser of
  -- the limit and their number.
  pub count-enforce_diversity :
      (t : String) (selected : List (Candidate W)) (max_same_topic : ℕ)
      → count t (enforce_diversity selected max_same_topic) ≡ min max_same_topic (count t selected)
  unfolding enforce_diversity get
  count-enforce_diversity t selected max_same_topic =
      ground (arith, count-diversity_loop t max_same_topic [] selected)

  pub count-take : (t : String) (n : ℕ) (cs : List (Candidate W)) → count t (take n cs) ≤ count t cs
  count-take t zero cs = omega arith
  count-take t (suc n) [] = omega arith
  count-take t (suc n) (c ∷ cs) = ground (arith, count-take t n cs)

  quota_limits :
      (t : String) (platform_quota : Dict String ℕ) (cs : List (Candidate W)) (platform : String)
      → (count t (apply_quota platform_quota cs platform) ≤ count t cs)
        × (length (apply_quota platform_quota cs platform)
            ≤ or_default (get platform platform_quota) (length cs))
  unfolding apply_quota
  quota_limits t platform_quota cs platform = elim (Option-cases (get platform platform_quota)) [
    | inl e ↦ rw (e, apply_quota) (omega arith, omega arith)
    | inr (q, e) ↦ rw (e, apply_quota) (count-take t q cs, omega (arith, length-take q cs))
  ]

  module _ ⦃o : Weighing W⦄ where
    -- Whatever the draws, and on every platform, a selection has at most `n` candidates and at most
    -- `max_same_topic` of any topic; if the platform has a quota, it has at most that many too.
    pub select_limits :
        (value : ℕ → Candidate W → W) (platform_quota : Dict String ℕ) (max_same_topic : ℕ)
        (ranked : List (Candidate W)) (platform t : String) (n : ℕ)
        → (length (select value platform_quota max_same_topic ranked platform n)
            ≤ elim (get platform platform_quota) [ none ↦ n | some quota ↦ min n quota ])
          × (count t (select value platform_quota max_same_topic ranked platform n)
              ≤ max_same_topic)
    unfolding select
    select_limits value platform_quota max_same_topic ranked platform t n =
        let ordered = candidates_of (sort_loop [] (scored value 0 ranked)) in
        let diverse = enforce_diversity ordered max_same_topic in
        let limited = apply_quota platform_quota diverse platform in
        ground (
          arith,
          count-enforce_diversity t ordered max_same_topic,
          quota_limits t platform_quota diverse platform,
          count-take t n limited,
          length-take n limited,
        )

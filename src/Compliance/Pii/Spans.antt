-- ===== src/Compliance/Pii/Spans.antt =====
-- The spans of the detections, and their order.
use ligp_v.Prelude.{
  ℕ, ◌-◌, ◌≡◌, ◌≤◌, ◌<◌, false, ◌||◌, ◌&&◌, List, [], ◌∷◌, ◌++◌, arith, String, ltb, All,
  All-append, length, Bool-cases, inl, inr, take, drop, ◌⊎◌,
}
use ligp_v.Compliance.Pii.{
  Detection, Found, overlaps, claim_matches, claim_patterns, insert_by_start, sort_by_start,
  detect_only, patterns,
}

module _ {C : Type 0} where
  abbrev pub span_of : Detection C → ℕ × ℕ
  span_of d = (d.start, d.end)

  -- Two spans that share no position.
  abbrev pub Apart : Detection C → Detection C → Type 0
  Apart d x = (d.end ≤ x.start) ⊎ (x.end ≤ d.start)

  abbrev pub AllApart : List (Detection C) → Type 0
  AllApart [] = Unit
  AllApart (d ∷ ds) = All (Apart d) ds × AllApart ds

  -- Non-empty spans from left to right, none of which reaches into the next, up to a limit.
  abbrev pub Chain : ℕ → ℕ → List (Detection C) → Type 0
  Chain p limit [] = Unit
  Chain p limit (d ∷ ds) =
      (p ≤ d.start) × (d.start < d.end) × (d.end ≤ limit) × Chain d.end limit ds

  abbrev pub Within : ℕ → Detection C → Type 0
  Within limit d = (d.start < d.end) × (d.end ≤ limit)

  Chain-insert :
      (p limit : ℕ) (d : Detection C) (ds : List (Detection C))
      → p ≤ d.start
      → Within limit d
      → All (Apart d) ds
      → Chain p limit ds
      → Chain p limit (insert_by_start d ds)
  unfolding insert_by_start
  Chain-insert p limit d [] h (a, b) free c = (h, a, b, tt)
  Chain-insert p limit d (x ∷ xs) h (a, b) (apart, free) (k, m, n, c) =
      elim (Bool-cases (ltb x.start d.start)) [
        | inl later ↦
            let after : x.end ≤ d.start = ground (arith, apart) in
            rw later (k, m, n, Chain-insert x.end limit d xs after (a, b) free c)
        | inr first ↦ rw first (h, a, b, (ground (arith, apart), m, n, c))
      ]

  All-insert :
      (P : Detection C → Type 0) (d : Detection C) (ds : List (Detection C))
      → P d
      → All P ds
      → All P (insert_by_start d ds)
  unfolding insert_by_start
  All-insert P d [] h k = (h, tt)
  All-insert P d (x ∷ xs) h (k, ks) = elim (Bool-cases (ltb x.start d.start)) [
    | inl later ↦ rw later (k, All-insert P d xs h ks)
    | inr first ↦ rw first (h, (k, ks))
  ]

  All-sort :
      (P : Detection C → Type 0) (ds : List (Detection C)) → All P ds → All P (sort_by_start ds)
  unfolding sort_by_start
  All-sort P [] h = tt
  All-sort P (d ∷ ds) (h, hs) = All-insert P d (sort_by_start ds) h (All-sort P ds hs)

  Chain-sort :
      (limit : ℕ) (ds : List (Detection C))
      → AllApart ds
      → All (Within limit) ds
      → Chain 0 limit (sort_by_start ds)
  unfolding sort_by_start
  Chain-sort limit [] a w = tt
  Chain-sort limit (d ∷ ds) (a, as') (w, ws) =
      Chain-insert 0 limit d (sort_by_start ds) (omega arith) w (All-sort (Apart d) ds a)
        (Chain-sort limit ds as' ws)

  -- What the loops keep: the spans claimed are those of the detections, which stand apart.
  pub record IsClaimed (limit : ℕ) (f : Found C) : Type 0 where
    pub apart : AllApart f.detections
    pub within : All (Within limit) f.detections
    pub free :
        (d : Detection C)
        → overlaps f.claimed d.start d.end ≡ false
        → d.start < d.end
        → All (λ x. Apart x d) f.detections

  AllApart-append :
      (ds : List (Detection C)) (d : Detection C)
      → AllApart ds
      → All (λ x. Apart x d) ds
      → AllApart (ds ++ d ∷ [])
  AllApart-append [] d a h = (tt, tt)
  AllApart-append (x ∷ ds) d (a, as') (h, hs) =
      (All-append (Apart x) ds (d ∷ []) a (h, tt), AllApart-append ds d as' hs)

-- A match is a non-empty span within the text.
abbrev pub FitsIn : ℕ → ℕ × ℕ → Type 0
FitsIn limit m = (m.0 < m.1) × (m.1 ≤ limit)

overlaps-append :
    (claimed : List (ℕ × ℕ)) (c : ℕ × ℕ) (s e : ℕ)
    → overlaps (claimed ++ c ∷ []) s e ≡ (overlaps claimed s e || ltb s c.1 && ltb c.0 e)
unfolding overlaps
overlaps-append [] c s e = ground arith
overlaps-append (x ∷ claimed) c s e = ground (arith, overlaps-append claimed c s e)

module _ {C : Type 0} where
  IsClaimed-claim :
      (limit : ℕ) (f : Found C) (d : Detection C)
      → IsClaimed limit f
      → Within limit d
      → overlaps f.claimed d.start d.end ≡ false
      → IsClaimed limit
          (record { claimed = f.claimed ++ span_of d ∷ []; detections = f.detections ++ d ∷ [] })
  IsClaimed-claim limit f d i w clear = record {
    apart = AllApart-append f.detections d i.apart (i.free d clear w.0);
    within = All-append (Within limit) f.detections (d ∷ []) i.within (w, tt);
    free = λ x h k.
        All-append (λ y. Apart y x) f.detections (d ∷ [])
          (i.free x (ground (arith, overlaps-append f.claimed (span_of d) x.start x.end)) k)
          (ground (arith, overlaps-append f.claimed (span_of d) x.start x.end, w), tt);
  }

  IsClaimed-claim_matches :
      (ptype : String) (text : List C) (matches : List (ℕ × ℕ)) (f : Found C)
      → All (FitsIn (length text)) matches
      → IsClaimed (length text) f
      → IsClaimed (length text) (claim_matches ptype text matches f)
  unfolding claim_matches
  IsClaimed-claim_matches ptype text [] f h i = i
  IsClaimed-claim_matches ptype text (m ∷ matches) f (fit, h) i =
      elim (Bool-cases (overlaps f.claimed m.0 m.1)) [
        | inl taken ↦ rw taken (IsClaimed-claim_matches ptype text matches f h i)
        | inr clear ↦ rw clear (
            IsClaimed-claim_matches ptype text matches _ h (
              IsClaimed-claim (length text) f
                (record {
                  type = ptype;
                  original = take (m.1 - m.0) (drop m.0 text);
                  start = m.0;
                  end = m.1;
                })
                i fit clear))
      ]

  module _ (finditer : String → List C → List (ℕ × ℕ)) where
    IsClaimed-claim_patterns :
        (ptypes : List String) (text : List C) (f : Found C)
        → ((ptype : String) → All (FitsIn (length text)) (finditer ptype text))
        → IsClaimed (length text) f
        → IsClaimed (length text) (claim_patterns finditer ptypes text f)
    unfolding claim_patterns
    IsClaimed-claim_patterns [] text f h i = i
    IsClaimed-claim_patterns (ptype ∷ ptypes) text f h i =
        IsClaimed-claim_patterns ptypes text (claim_matches ptype text (finditer ptype text) f) h
          (IsClaimed-claim_matches ptype text (finditer ptype text) f (h ptype) i)

    -- If the patterns match non-empty spans within the text, the detections are non-empty spans
    -- within it too, from left to right, and none reaches into the next.
    pub detect_only-Chain :
        (text : List C)
        → ((ptype : String) → All (FitsIn (length text)) (finditer ptype text))
        → Chain 0 (length text) (detect_only finditer text)
    unfolding detect_only
    detect_only-Chain [] h = tt
    detect_only-Chain (x ∷ xs) h =
        let start : IsClaimed (length (x ∷ xs)) (record { claimed = []; detections = [] }) =
          record { apart = tt; within = tt; free = λ d k l. tt } in
        let i =
          IsClaimed-claim_patterns patterns (x ∷ xs) (record { claimed = []; detections = [] }) h
            start in
        Chain-sort (length (x ∷ xs)) _ i.apart i.within

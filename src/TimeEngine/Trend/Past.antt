-- ===== src/TimeEngine/Trend/Past.antt =====
-- Which value a window starts from.
use mathlib.Core.List.{Memᴰ}
use mathlib.Core.Path.{subst}
use ligp_v.Prelude.{
  ℕ, ◌≡◌, ◌≤◌, ◌<◌, ◌⊎◌, refl, Bool, true, false, Option, none, some, List, [], ◌∷◌, arith, leb,
  ltb, All, Bool-cases, inl, inr, sym, lt→ltb, le→leb, leb→le,
}
use ligp_v.Prelude.Sorting.{sort_by, IsSorted, sort_by-IsSorted}
use ligp_v.Graph.Shortest.Least.{parts}
use ligp_v.TimeEngine.Trend.{Point, sorted, scan, value_at_or_before}

module _ {W : Type 0} where
  abbrev earlier : Point W → Point W → Bool
  earlier p q = ltb p.0 q.0

  late :
      (ts target : ℕ) (scores : List (Point W))
      → target < ts
      → All (λ q. ltb q.0 ts ≡ false) scores
      → All (λ q. target < q.0) scores
  late ts target [] h a = tt
  late ts target (q ∷ scores) h (p, a) = (ground (arith, lt→ltb q.0 ts), late ts target scores h a)

  found_in :
      (P : Point W → Type 0) (p : Point W) (scores : List (Point W))
      → Memᴰ p scores
      → All P scores
      → P p
  found_in P p [] m a = elim m [ ]
  found_in P p (q ∷ scores) m (b, a) = elim (parts m) [
    | inl same ↦ subst P (sym same) b
    | inr later ↦ found_in P p scores later a
  ]

  all_later :
      (at target : ℕ) (scores : List (Point W))
      → All (λ q. target < q.0) scores
      → All (λ q. (q.0 ≤ at) ⊎ (target < q.0)) scores
  all_later at target [] a = tt
  all_later at target (q ∷ scores) (h, a) = (inr h, all_later at target scores a)

  -- The value of the latest point up to a time, and that none is between.
  pub record IsLatest (scores : List (Point W)) (target : ℕ) (val : W) : Type 0 where
    pub at : ℕ
    pub there : Memᴰ (at, val) scores
    pub past : at ≤ target
    pub latest : All (λ q. (q.0 ≤ at) ⊎ (target < q.0)) scores

  scan_lem :
      (candidate : Option W) (scores : List (Point W)) (target : ℕ)
      → IsSorted earlier scores
      → ((scan candidate scores target ≡ candidate) × All (λ q. target < q.0) scores)
        ⊎ ((val : W) × (scan candidate scores target ≡ some val) × IsLatest scores target val)
  unfolding scan
  scan_lem candidate [] target s = inl (refl, tt)
  scan_lem candidate ((ts, val) ∷ scores) target (a, s) = elim (Bool-cases (leb ts target)) [
    | inr later ↦
        let h : target < ts = ground (arith, le→leb ts target) in
        inl (rw later refl, (h, late ts target scores h a))
    | inl old ↦ elim (scan_lem (some val) scores target s) [
      | inl (same, rest) ↦ inr (
        val,
        rw old same,
        record {
          at = ts;
          there = Memᴰ.head refl;
          past = leb→le ts target old;
          latest = (inl (omega arith), all_later ts target scores rest);
        },
      )
      | inr (v, same, l) ↦ inr (
        v,
        rw old same,
        record {
          at = l.at;
          there = Memᴰ.tail l.there;
          past = l.past;
          latest = (
            inl (
                ground (
                  arith,
                  lt→ltb l.at ts,
                  found_in (λ q. ltb q.0 ts ≡ false) (l.at, v) scores l.there a,
                )),
            l.latest,
          );
        },
      )
    ]
  ]

  earlier_asym : (p q : Point W) → earlier p q ≡ true → earlier q p ≡ false
  earlier_asym p q h = ground arith

  earlier_trans :
      (p q r : Point W) → earlier q p ≡ false → earlier r q ≡ false → earlier r p ≡ false
  earlier_trans p q r h k = ground arith

  -- Over the points in the order of time, `_value_at_or_before` gives the value of the latest point
  -- that is not after the target, or nothing if all points are.
  pub value_at_or_before_lem :
      (scores : List (Point W)) (target : ℕ)
      → ((value_at_or_before (sorted scores) target ≡ none)
          × All (λ q. target < q.0) (sorted scores))
        ⊎ ((val : W) × (value_at_or_before (sorted scores) target ≡ some val)
            × IsLatest (sorted scores) target val)
  unfolding value_at_or_before sorted
  value_at_or_before_lem scores target =
      scan_lem none (sort_by earlier scores) target
        (sort_by-IsSorted earlier earlier_asym earlier_trans scores)

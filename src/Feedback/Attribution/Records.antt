-- ===== src/Feedback/Attribution/Records.antt =====
-- What is projected from the records.
use mathlib.Core.List.{Memᴰ}
use ligp_v.Prelude.{
  ℕ, ◌≡◌, ◌≢◌, ◌≤◌, refl, ap, true, false, some, List, [], ◌∷◌, arith, if◌then◌else◌, String,
  string_eq, ◌==◌, eq_iff, ◌⊎◌, ltb, or_default, All, Bool-cases, inl, inr, ltb→lt, lt→ltb,
}
use ligp_v.Dict.{Dict, get, put, keys, get-put, get-put_self, beq_refl}
use ligp_v.Feedback.Attribution.{
  Labels, Floats, returned, hours, point_for_hours, latest_from, latest, Scheduler, snaps,
  record_raw, corrected, run_attribution, aggregate_total,
}

lt_of : (h n : ℕ) → ltb h n ≡ true → h ≤ n
lt_of h n e = ground (arith, ltb→lt h n)

ge_of : (h n : ℕ) → ltb h n ≡ false → n ≤ h
ge_of h n e = ground (arith, lt→ltb h n)

module _ {C : Type 0} (l : Labels C) where
  abbrev pub IsLabel : String → Type 0
  IsLabel point = (n : ℕ) × (hours l point ≡ some n)

  -- A label that is as late as all of a list.
  pub record IsLatest (points : List String) (point : String) : Type 0 where
    pub at : ℕ
    pub timed : hours l point ≡ some at
    pub there : Memᴰ point points
    pub after : All (λ q. (n : ℕ) × (hours l q ≡ some n) × (n ≤ at)) points

  latest_from_lem :
      (best : String) (h : ℕ) (points : List String)
      → hours l best ≡ some h
      → All IsLabel points
      → (p : String) × (latest_from l best h points ≡ returned p)
        × (at : ℕ) × (hours l p ≡ some at)
        × (h ≤ at)
        × ((p ≡ best) ⊎ Memᴰ p points)
        × All (λ q. (n : ℕ) × (hours l q ≡ some n) × (n ≤ at)) points
  unfolding latest_from
  latest_from_lem best h [] t v = (best, refl, h, t, omega arith, inl refl, tt)
  latest_from_lem best h (q ∷ points) t ((n, tq), v) = elim (Bool-cases (ltb h n)) [
    | inl later ↦
        let (p, ends, at, tp, le, from, rest) = latest_from_lem q n points tq v in
        (
          p,
          ground (arith, tq, ends),
          at,
          tp,
          ground (arith, lt_of h n, le),
          inr (elim from [ inl same ↦ Memᴰ.head same | inr there ↦ Memᴰ.tail there ]),
          ((n, tq, le), rest),
        )
    | inr earlier ↦
        let (p, ends, at, tp, le, from, rest) = latest_from_lem best h points t v in
        (
          p,
          ground (arith, tq, ends),
          at,
          tp,
          le,
          elim from [ inl same ↦ inl same | inr there ↦ inr (Memᴰ.tail there) ],
          ((n, tq, ground (arith, ge_of h n)), rest),
        )
  ]

  latest_lem :
      (point : String) (points : List String)
      → All IsLabel (point ∷ points)
      → (p : String) × (latest l (point ∷ points) ≡ returned p) × IsLatest (point ∷ points) p
  unfolding latest
  latest_lem point points ((h, t), v) =
      let (p, ends, at, tp, le, from, rest) = latest_from_lem point h points t v in
      (
        p,
        ground (arith, t, ends),
        record {
          at = at;
          timed = tp;
          there = elim from [ inl same ↦ Memᴰ.head same | inr there ↦ Memᴰ.tail there ];
          after = ((h, t, le), rest);
        },
      )

module _ {C W : Type 0} (l : Labels C) ⦃f : Floats W⦄ where
  -- If the labels of all records of a content are valid and it has one, the total is projected from
  -- the record of the latest checkpoint.
  pub aggregate_total_lem :
      (content_id : String) (s : Scheduler W) (point : String) (raw : W) (d : Dict String W)
      → snaps content_id s ≡ (point, raw) ∷ d
      → All (IsLabel l) (keys ((point, raw) ∷ d))
      → (p : String) × IsLatest l (keys ((point, raw) ∷ d)) p
        × (aggregate_total l content_id s
            ≡ returned (corrected p (or_default (get p ((point, raw) ∷ d)) f.nought) s))
  unfolding aggregate_total
  aggregate_total_lem content_id s point raw d recorded valid =
      let (p, ends, late) = latest_lem l point (keys d) valid in
      (p, late, ground (arith, recorded, ends))

  snaps-record_raw :
      (content_id other point : String) (revenue : W) (s : Scheduler W)
      → snaps other (record_raw content_id point revenue s)
        ≡ (if content_id == other then put point revenue (snaps content_id s) else snaps other s)
  unfolding record_raw snaps
  snaps-record_raw content_id other point revenue s = ground (
    arith,
    get-put content_id other (put point revenue (or_default (get content_id s.snapshots) []))
        s.snapshots,
  )

  recorded :
      (content_id point : String) (revenue : W) (s : Scheduler W)
      → get point (snaps content_id (record_raw content_id point revenue s)) ≡ some revenue
  recorded content_id point revenue s = ground (
    arith,
    snaps-record_raw content_id content_id point revenue s,
    beq_refl content_id,
    get-put_self point revenue (snaps content_id s),
  )

  -- A revenue that was recorded at a checkpoint is what `run_attribution` reports and projects from,
  -- and the other contents have what they had.
  run_attribution-record_raw :
      (content_id point : String) (revenue : W) (h : ℕ) (s : Scheduler W)
      → point_for_hours l s.points h ≡ returned point
      → (run_attribution l content_id h (record_raw content_id point revenue s)
          ≡ returned (record {
            content_id = content_id;
            checkpoint = point;
            raw = revenue;
            projected_total = corrected point revenue s;
          }))
        × ((other : String)
            → other ≢ content_id
            → snaps other (record_raw content_id point revenue s) ≡ snaps other s)
  unfolding run_attribution record_raw corrected
  run_attribution-record_raw content_id point revenue h s at = (
    rw (at, run_attribution)
        (ap
          (λ r. returned (record {
            content_id = content_id;
            checkpoint = point;
            raw = or_default r f.nought;
            projected_total = corrected point (or_default r f.nought) s;
          }))
          (recorded content_id point revenue s)),
    λ other different. ground (
      arith,
      snaps-record_raw content_id other point revenue s,
      eq_iff content_id other,
      different,
    ),
  )

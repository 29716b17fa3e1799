-- ===== src/TimeEngine/Trend.antt =====
-- `TrendDetector` of time_engine/trend_detector.py. Times are seconds from the first moment of
-- `datetime`, before which the code raises; the floats of the scores are an interface. The thresholds are those of the configuration, each of which may be missing.
pub mod Past
use ligp_v.Prelude.{
  ℕ, zero, suc, ◌+◌, ◌-◌, ◌*◌, Bool, true, false, not, ◌&&◌, Option, none, some, List, [], ◌∷◌,
  arith, if◌then◌else◌, String, string_eq, ◌==◌, leb, ltb, length, keep, or_default,
}
use ligp_v.Prelude.Sorting.{sort_by}

-- The operations on floats that are applied: `zero_of` is 0.0, `low` and `high` are the defaults 0.0
-- and 0.05 of two thresholds.
pub record Floats (W : Type 0) : Type 0 where
  pub less : W → W → Bool
  pub same : W → W → Bool
  pub zero_of : W
  pub high : W
  pub sub : W → W → W
  pub div : W → W → W
  pub abs : W → W

abbrev pub Point : Type 0 → Type 0
Point W = ℕ × W

-- The thresholds of the states.
pub record States (W : Type 0) : Type 0 where
  pub viral_velocity_gt : Option W
  pub rising_velocity_gt : Option W
  pub rising_acceleration_gt : Option W
  pub falling_velocity_lt : Option W
  pub peaking_velocity_abs_lt : Option W

pub record Config (W : Type 0) : Type 0 where
  pub states : States W
  pub velocity_window_hours : Option ℕ
  pub require_state : Option String
  pub acceleration_gt : Option W

module _ {W : Type 0} where
  -- `_sorted`
  unfoldable pub sorted : List (Point W) → List (Point W)
  sorted scores = sort_by (λ p q. ltb p.0 q.0) scores

  -- The loop of `_value_at_or_before`, which stops at the first later point.
  unfoldable pub scan : Option W → List (Point W) → ℕ → Option W
  scan candidate [] target = candidate
  scan candidate ((ts, val) ∷ scores) target =
      let rest = scan (some val) scores target in if leb ts target then rest else candidate

  unfoldable pub value_at_or_before : List (Point W) → ℕ → Option W
  value_at_or_before scores target = scan none scores target

  -- `ordered[-1]` and `ordered[:-1]` of a list that is not empty.
  unfoldable pub last_of : Point W → List (Point W) → Point W
  last_of p [] = p
  last_of p (q ∷ ps) = last_of q ps

  unfoldable pub but_last : Point W → List (Point W) → List (Point W)
  but_last p [] = []
  but_last p (q ∷ ps) = p ∷ but_last q ps

module _ {W : Type 0} ⦃f : Floats W⦄ where
  -- The change from the past value, which is that of the earliest point if no other is old enough.
  unfoldable pub change : W → W → W
  change now_val past_val =
      if f.same past_val f.zero_of then f.zero_of else f.div (f.sub now_val past_val) past_val

  -- `now_ts - timedelta(...)` on times that do not go below 0.
  unfoldable pub velocity_of : ℕ → List (Point W) → W
  velocity_of window_hours [] = f.zero_of
  velocity_of window_hours (p ∷ ps) =
      let now = last_of p ps in
      change now.1
        (or_default (value_at_or_before (but_last p ps) (now.0 - 3600 * window_hours)) p.1)

  unfoldable pub compute_velocity : List (Point W) → ℕ → W
  compute_velocity scores window_hours =
      if ltb (length scores) 2 then f.zero_of else velocity_of window_hours (sorted scores)

  unfoldable pub up_to : ℕ → List (Point W) → List (Point W)
  up_to cutoff ordered = keep (λ p. leb p.0 cutoff) ordered

  unfoldable pub compute_acceleration : Config W → List (Point W) → ℕ → W
  compute_acceleration config scores window_hours =
      if ltb (length scores) 3 then f.zero_of else elim (sorted scores) [
        | [] ↦ f.zero_of
        | p ∷ ps ↦
            let window = or_default config.velocity_window_hours 24 in
            let older = up_to ((last_of p ps).0 - 3600 * window_hours) (p ∷ ps) in
            f.sub (compute_velocity (p ∷ ps) window)
              (if leb 2 (length older) then compute_velocity older window else f.zero_of)
      ]

  -- `"key" in d and value > d["key"]`
  unfoldable pub above : Option W → W → Bool
  above none value = false
  above (some limit) value = f.less limit value

  unfoldable pub below : Option W → W → Bool
  below none value = false
  below (some limit) value = f.less value limit

  unfoldable pub classify_state : States W → W → W → String
  classify_state states velocity acceleration =
      if above states.viral_velocity_gt velocity
      then "viral"
      else if above states.rising_velocity_gt velocity
          && f.less (or_default states.rising_acceleration_gt f.zero_of) acceleration
      then "rising"
      else if below states.falling_velocity_lt velocity
      then "falling"
      else if below states.peaking_velocity_abs_lt (f.abs velocity)
      then "peaking"
      else "stable"

  unfoldable pub is_optimal_publish_window : Config W → W → W → Bool
  is_optimal_publish_window config velocity acceleration =
      classify_state config.states velocity acceleration == or_default config.require_state "rising"
      && f.less (or_default config.acceleration_gt f.high) acceleration

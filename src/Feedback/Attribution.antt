-- ===== src/Feedback/Attribution.antt =====
-- `AttributionScheduler` of feedback_engine/attribution_scheduler.py. `clean` is `strip().lower()` as a
-- list of characters, `to_int` is `int`, and floats are an interface. The registration with Prefect,
-- which does nothing, and the texts of the jobs are left out.
pub mod Records
use ligp_v.Prelude.{
  ℕ, ◌+◌, ◌*◌, Bool, true, false, not, Option, none, some, List, [], ◌∷◌, arith, if◌then◌else◌,
  String, Eq, string_eq, ltb, nat_beq, or_default,
}
use ligp_v.Dict.{Dict, get, put, keys}

-- What Python makes of a label, where `is_h` and `is_d` are the tests for two letters.
pub record Labels (C : Type 0) : Type 0 where
  pub clean : String → List C
  pub is_h : C → Bool
  pub is_d : C → Bool
  pub to_int : List C → Option ℕ

pub record Floats (W : Type 0) : Type 0 where
  pub nought : W
  pub one_of : W
  pub positive : W → Bool
  pub div : W → W → W

pub data Result {ℓ} (A : Type ℓ) : Type ℓ where
  returned : A → Result A
  value_error : Result A

-- `point[-1:]` and `point[:-1]`
unfoldable pub last_char : {C : Type 0} → List C → Option C
last_char [] = none
last_char (c ∷ cs) = elim (last_char cs) [ none ↦ some c | some d ↦ some d ]

unfoldable pub but_last : {C : Type 0} → C → List C → List C
but_last c [] = []
but_last c (d ∷ cs) = c ∷ but_last d cs

unfoldable pub digits_of : {C : Type 0} → List C → List C
digits_of [] = []
digits_of (c ∷ cs) = but_last c cs

unfoldable pub times : ℕ → Option ℕ → Option ℕ
times n none = none
times n (some m) = some (m * n)

module _ {C : Type 0} (l : Labels C) where
  -- `_hours`, where `none` is the ValueError.
  unfoldable pub hours : String → Option ℕ
  hours point =
      let text = l.clean point in
      elim (last_char text) [
        | none ↦ none
        | some c ↦
            if l.is_h c
            then times 1 (l.to_int (digits_of text))
            else if l.is_d c
            then times 24 (l.to_int (digits_of text))
            else none
      ]

  -- The times of `schedule`, in hours after the publication.
  unfoldable pub schedule : List String → Result (List (String × ℕ))
  schedule [] = returned []
  schedule (point ∷ points) = elim (hours point) [
    | none ↦ value_error
    | some h ↦ elim (schedule points) [
      | value_error ↦ value_error
      | returned rest ↦ returned ((point, h) ∷ rest)
    ]
  ]

  -- `_point_for_hours`
  unfoldable pub point_for_hours : List String → ℕ → Result String
  point_for_hours [] h = value_error
  point_for_hours (point ∷ points) h = elim (hours point) [
    | none ↦ value_error
    | some n ↦ if nat_beq n h then returned point else point_for_hours points h
  ]

  -- `max(snaps, key=_hours)` from a first label with its hours: the first of the greatest.
  unfoldable pub latest_from : String → ℕ → List String → Result String
  latest_from best h [] = returned best
  latest_from best h (point ∷ points) = elim (hours point) [
    | none ↦ value_error
    | some n ↦ if ltb h n then latest_from point n points else latest_from best h points
  ]

  unfoldable pub latest : List String → Result String
  latest [] = value_error
  latest (point ∷ points) = elim (hours point) [
    | none ↦ value_error
    | some h ↦ latest_from point h points
  ]

pub record Scheduler (W : Type 0) : Type 0 where
  pub points : List String
  pub decay_correction : Dict String W
  pub snapshots : Dict String (Dict String W)

pub record Projection (W : Type 0) : Type 0 where
  pub content_id : String
  pub checkpoint : String
  pub raw : W
  pub projected_total : W

module _ {W : Type 0} where
  -- `self._snapshots.get(content_id, {})`
  unfoldable pub snaps : String → Scheduler W → Dict String W
  snaps content_id s = or_default (get content_id s.snapshots) []

  unfoldable pub record_raw : String → String → W → Scheduler W → Scheduler W
  record_raw content_id point revenue s = record s {
    snapshots = put content_id (put point revenue (snaps content_id s)) s.snapshots;
  }

module _ {W : Type 0} ⦃f : Floats W⦄ where
  -- `raw / correction if correction > 0 else raw`
  unfoldable pub corrected : String → W → Scheduler W → W
  corrected point raw s =
      let correction = or_default (get point s.decay_correction) f.one_of in
      if f.positive correction then f.div raw correction else raw

module _ {C W : Type 0} (l : Labels C) ⦃f : Floats W⦄ where
  unfoldable pub run_attribution : String → ℕ → Scheduler W → Result (Projection W)
  run_attribution content_id checkpoint_hours s =
      elim (point_for_hours l s.points checkpoint_hours) [
        | value_error ↦ value_error
        | returned point ↦
            let raw = or_default (get point (snaps content_id s)) f.nought in
            returned (record {
              content_id = content_id;
              checkpoint = point;
              raw = raw;
              projected_total = corrected point raw s;
            })
      ]

  unfoldable pub aggregate_total : String → Scheduler W → Result W
  aggregate_total content_id s = elim (snaps content_id s) [
    | [] ↦ returned f.nought
    | q ∷ d ↦ elim (latest l (keys (q ∷ d))) [
      | value_error ↦ value_error
      | returned point ↦ returned (corrected point (or_default (get point (q ∷ d)) f.nought) s)
    ]
  ]

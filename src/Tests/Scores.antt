-- ===== src/Tests/Scores.antt =====
-- Reports of clicks, points of a trend and records of revenue.
use ligp_v.Feedback.Metrics as Metrics
use ligp_v.Feedback.Metrics.{
  Snapshot, path, chosen, record_metrics, get_latest, get_time_series, parsed, splitlines, strip,
  lstrip, rstrip,
}
use ligp_v.Feedback.Metrics.Series as Series
use ligp_v.Feedback.Metrics.Series.{IsCoded, snapshot, snapshots, recorded, record_metrics_lem}
use ligp_v.Prelude.{
  Bool, true, false, arith, Eq, nat_eq, nat_beq_iff, ◌&&◌, ◌||◌, Option, last?, ◌↔◌, if◌then◌else◌,
  ℕ, ◌+◌, ◌*◌, ◌/◌, ◌≡◌, ◌<◌, ◌⊎◌, refl, none, some, List, [], ◌∷◌, String, string_eq, All,
  or_default, nat_beq, ltb,
}
use ligp_v.Dict.{get, put, keys}
use ligp_v.Prelude.Int.{pos}
use ligp_v.Scoring.Probability.{fallback_priors}
use ligp_v.Scoring.Probability.Series.{Report, prior, updated, clicks_of, misses_of, updated_lem}
use ligp_v.TimeEngine.Trend.{Point, sorted, value_at_or_before}
use ligp_v.TimeEngine.Trend.Past.{IsLatest, value_at_or_before_lem}
use ligp_v.Feedback.Attribution as Attribution
use ligp_v.Feedback.Attribution.{
  Labels, Scheduler, returned, snaps, corrected, aggregate_total, hours, last_char, but_last,
  digits_of, times,
}
use ligp_v.Feedback.Attribution.Records as Records
use ligp_v.Feedback.Attribution.Records.{aggregate_total_lem, IsLabel}

abbrev reports : List Report
reports = ("blog", pos 3, pos 10) ∷ ("blog", pos 5, pos 2) ∷ ("podcast", pos 1, pos 4) ∷ []

updated_lem_example :
    ((prior "blog" (updated reports fallback_priors)).alpha
      ≡ (prior "blog" fallback_priors).alpha + 1000 * clicks_of "blog" reports)
    × ((prior "blog" (updated reports fallback_priors)).beta
        ≡ (prior "blog" fallback_priors).beta + 1000 * misses_of "blog" reports)
updated_lem_example = updated_lem reports "blog" fallback_priors

abbrev points : List (Point ℕ)
points = (90, 7) ∷ (10, 4) ∷ (50, 5) ∷ []

value_at_or_before_lem_example :
    ((value_at_or_before (sorted points) 60 ≡ none) × All (λ q. 60 < q.0) (sorted points))
    ⊎ ((val : ℕ) × (value_at_or_before (sorted points) 60 ≡ some val)
        × IsLatest (sorted points) 60 val)
value_at_or_before_lem_example = value_at_or_before_lem points 60

-- Labels with one digit, as lists of numbers: 10 is the letter h and 11 the letter d.
abbrev labels : Labels ℕ
labels = record {
  clean = λ s. or_default (get {V = List ℕ} s (("7d", 7 ∷ 11 ∷ []) ∷ ("1h", 1 ∷ 10 ∷ []) ∷ [])) [];
  is_h = nat_beq 10;
  is_d = nat_beq 11;
  to_int = λ cs. elim cs [ [] ↦ none | c ∷ rest ↦ some c ];
}

instance abbrev floats : Attribution.Floats ℕ
floats = record { nought = 0; one_of = 100; positive = λ w. ltb 0 w; div = λ a b. 100 * a / b }

abbrev scheduler : Scheduler ℕ
scheduler = record {
  points = "1h" ∷ "7d" ∷ [];
  decay_correction = ("1h", 10) ∷ ("7d", 95) ∷ [];
  snapshots = ("c", ("1h", 3) ∷ ("7d", 19) ∷ []) ∷ [];
}

snaps_recorded : snaps "c" scheduler ≡ ("1h", 3) ∷ ("7d", 19) ∷ []
unfolding snaps get
snaps_recorded = refl

first_label : hours labels "1h" ≡ some 1
unfolding hours get last_char but_last digits_of times
first_label = refl

second_label : hours labels "7d" ≡ some 168
unfolding hours get last_char but_last digits_of times
second_label = refl

aggregate_total_lem_example :
    (p : String) × Records.IsLatest labels (keys {V = ℕ} (("1h", 3) ∷ ("7d", 19) ∷ [])) p
    × (aggregate_total labels "c" scheduler
        ≡ returned
            (corrected p (or_default (get {V = ℕ} p (("1h", 3) ∷ ("7d", 19) ∷ [])) 0) scheduler))
aggregate_total_lem_example =
    aggregate_total_lem labels "c" scheduler "1h" 3 (("7d", 19) ∷ []) snaps_recorded
      ((1, first_label), ((168, second_label), tt))

-- Characters as numbers: 1 is a slash, 2 a colon, 3 an underscore, 0 a line feed and 9 another end of
-- a line. The text of a snapshot is the id of its content in braces, 7 and 8.
abbrev closed : List ℕ → List ℕ
closed [] = 8 ∷ []
closed (c ∷ cs) = c ∷ closed cs

abbrev opened : List ℕ → Option (List ℕ)
opened [] = none
opened (c ∷ []) = if nat_beq c 8 then some [] else none
opened (c ∷ d ∷ cs) = elim (opened (d ∷ cs)) [ none ↦ none | some id ↦ some (c ∷ id) ]

abbrev read : List ℕ → Option (Snapshot ℕ (Unit {0}))
read [] = none
read (c ∷ cs) = elim (opened cs) [
  | none ↦ none
  | some id ↦
      if nat_beq c 7
      then some (record { content_id = id; platform = "blog"; ts = "t"; metrics = [] })
      else none
]

abbrev ends_line : ℕ → Bool
ends_line c = nat_beq c 0 || nat_beq c 9

abbrev format : Metrics.Format ℕ (Unit {0})
format = record {
  slash = 1;
  colon = 2;
  underscore = 3;
  newline = 0;
  ends_line = ends_line;
  blank = ends_line;
  dumps = λ x. 7 ∷ closed x.content_id;
  loads = read;
}

abbrev ids_equal : List ℕ → List ℕ → Bool
ids_equal [] [] = true
ids_equal [] (y ∷ ys) = false
ids_equal (x ∷ xs) [] = false
ids_equal (x ∷ xs) (y ∷ ys) = nat_beq x y && ids_equal xs ys

ids_equal_iff : (xs ys : List ℕ) → (ids_equal xs ys ≡ true) ↔ (xs ≡ ys)
ids_equal_iff [] [] = (λ h. refl, λ h. refl)
ids_equal_iff [] (y ∷ ys) = ground arith
ids_equal_iff (x ∷ xs) [] = ground arith
ids_equal_iff (x ∷ xs) (y ∷ ys) = ground (arith, ids_equal_iff xs ys, nat_beq_iff x y)

instance abbrev ids : Eq (List ℕ)
ids = record { beq = ids_equal; beq_iff = ids_equal_iff }

abbrev recording : List ℕ → Series.Report ℕ (Unit {0})
recording id = record { now = "t"; content_id = id; platform = "blog"; metrics = [] }

-- The first and the last id differ in a slash and a colon.
abbrev recordings : List (Series.Report ℕ (Unit {0}))
recordings = recording (4 ∷ 1 ∷ []) ∷ recording (5 ∷ []) ∷ recording (4 ∷ 2 ∷ []) ∷ []

IsCoded-first : IsCoded format (snapshot (recording (4 ∷ 1 ∷ [])))
unfolding chosen strip lstrip rstrip get
IsCoded-first = record {
  strip-dumps = refl;
  dumps-ne-nil = ground arith;
  loads-dumps = refl;
  unbroken = ground arith;
}

IsCoded-second : IsCoded format (snapshot (recording (5 ∷ [])))
unfolding chosen strip lstrip rstrip get
IsCoded-second = record {
  strip-dumps = refl;
  dumps-ne-nil = ground arith;
  loads-dumps = refl;
  unbroken = ground arith;
}

IsCoded-third : IsCoded format (snapshot (recording (4 ∷ 2 ∷ [])))
unfolding chosen strip lstrip rstrip get
IsCoded-third = record {
  strip-dumps = refl;
  dumps-ne-nil = ground arith;
  loads-dumps = refl;
  unbroken = ground arith;
}

record_metrics_lem_example :
    (get_time_series format (4 ∷ 1 ∷ []) (recorded format recordings [])
      ≡ some (snapshots format (4 ∷ 1 ∷ []) recordings))
    × (get_latest format (4 ∷ 1 ∷ []) (recorded format recordings [])
        ≡ some (last? (snapshots format (4 ∷ 1 ∷ []) recordings)))
record_metrics_lem_example =
    record_metrics_lem format recordings (4 ∷ 1 ∷ []) refl
      (IsCoded-first, (IsCoded-second, (IsCoded-third, tt)))

-- An id with a character that ends a line is written, and cannot be read any more.
broken_line :
    get_time_series format (4 ∷ 9 ∷ []) (recorded format (recording (4 ∷ 9 ∷ []) ∷ []) []) ≡ none
unfolding get_time_series record_metrics path get put parsed splitlines strip lstrip rstrip chosen
broken_line = refl

-- ===== src/Feedback/Metrics.antt =====
-- `MetricsCollector` of feedback_engine/metrics.py. The directory is a dictionary from the name of a
-- file to its text; names and texts are lists of characters. `dumps` and `loads` are the JSON codec
-- (`none` is an exception), and `ends_line` and `blank` say at which characters `splitlines` splits
-- and which `strip` removes. `splitlines` takes a carriage return with a line feed for one end of a
-- line, and here it is two with an empty line between, which the reading drops.
pub mod Series
use ligp_v.Prelude.{
  ℕ, Bool, true, false, Option, none, some, List, [], ◌∷◌, ◌++◌, arith, if◌then◌else◌, String, Eq,
  contains, ◌||◌, or_default, string_eq, last?,
}
use ligp_v.Dict.{Dict, get, put}

abbrev pub metric_keys : List String
metric_keys =
    "views" ∷ "clicks" ∷ "ctr" ∷ "watch_time" ∷ "shares" ∷ "revenue_est" ∷ "attributed_revenue" ∷ []

-- A snapshot, with values of a type `V`.
pub record Snapshot (C V : Type 0) : Type 0 where
  pub content_id : List C
  pub platform : String
  pub ts : String
  pub metrics : Dict String V

-- The characters that the code names, those that `splitlines` and `strip` look for, and the codec.
pub record Format (C V : Type 0) : Type 0 where
  pub slash : C
  pub colon : C
  pub underscore : C
  pub newline : C
  pub ends_line : C → Bool
  pub blank : C → Bool
  pub dumps : Snapshot C V → List C
  pub loads : List C → Option (Snapshot C V)

abbrev pub Store : Type 0 → Type 0
Store C = Dict (List C) (List C)

-- `{k: metrics.get(k) for k in _METRIC_KEYS if k in metrics}`
unfoldable pub chosen : {V : Type 0} → List String → Dict String V → Dict String V
chosen [] metrics = []
chosen (k ∷ ks) metrics =
    let rest = chosen ks metrics in elim (get k metrics) [ none ↦ rest | some v ↦ (k, v) ∷ rest ]

module _ {C : Type 0} where
  -- A character before the first of some lines.
  abbrev pub before : C → List (List C) → List (List C)
  before c [] = (c ∷ []) ∷ []
  before c (line ∷ lines) = (c ∷ line) ∷ lines

  unfoldable pub splitlines : (C → Bool) → List C → List (List C)
  splitlines ends_line [] = []
  splitlines ends_line (c ∷ text) =
      let rest = splitlines ends_line text in if ends_line c then [] ∷ rest else before c rest

  unfoldable pub lstrip : (C → Bool) → List C → List C
  lstrip blank [] = []
  lstrip blank (c ∷ text) = let rest = lstrip blank text in if blank c then rest else c ∷ text

  unfoldable pub rstrip : (C → Bool) → List C → List C
  rstrip blank [] = []
  rstrip blank (c ∷ text) = elim (rstrip blank text) [
    | [] ↦ if blank c then [] else c ∷ []
    | d ∷ rest ↦ c ∷ d ∷ rest
  ]

  unfoldable pub strip : (C → Bool) → List C → List C
  strip blank text = rstrip blank (lstrip blank text)

module _ {C V : Type 0} ⦃e : Eq C⦄ (m : Format C V) where
  -- `_path`, without the directory and what surrounds the name.
  unfoldable pub path : List C → List C
  path [] = []
  path (c ∷ cs) =
      let rest = path cs in (if e.beq c m.slash || e.beq c m.colon then m.underscore else c) ∷ rest

module _ {C V : Type 0} ⦃e : Eq C⦄ ⦃n : Eq (List C)⦄ (m : Format C V) where
  unfoldable pub record_metrics : String → List C → String → Dict String V → Store C → Store C
  record_metrics now content_id platform metrics store =
      let line = m.dumps (record {
        content_id = content_id;
        platform = platform;
        ts = now;
        metrics = chosen metric_keys metrics;
      }) in
      put (path m content_id)
        (or_default (get (path m content_id) store) [] ++ (line ++ m.newline ∷ [])) store

  -- The loop over the lines; `none` if `loads` raises.
  unfoldable pub parsed : List (List C) → Option (List (Snapshot C V))
  parsed [] = some []
  parsed (line ∷ lines) = elim (strip m.blank line) [
    | [] ↦ parsed lines
    | c ∷ cs ↦ elim (m.loads (c ∷ cs)) [
      | none ↦ none
      | some x ↦ elim (parsed lines) [ none ↦ none | some xs ↦ some (x ∷ xs) ]
    ]
  ]

  -- A file that is not there gives what an empty one gives.
  unfoldable pub get_time_series : List C → Store C → Option (List (Snapshot C V))
  get_time_series content_id store =
      parsed (splitlines m.ends_line (or_default (get (path m content_id) store) []))

  unfoldable pub get_latest : List C → Store C → Option (Option (Snapshot C V))
  get_latest content_id store = elim (get_time_series content_id store) [
    | none ↦ none
    | some series ↦ some (last? series)
  ]

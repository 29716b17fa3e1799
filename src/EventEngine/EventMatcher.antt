-- ===== src/EventEngine/EventMatcher.antt =====
-- `EventMatcher` of event_engine/event_matcher.py. The floats and their division are an interface.
use ligp_v.Prelude.{
  ℕ, Bool, true, false, not, ◌||◌, Option, List, [], ◌∷◌, if◌then◌else◌, String, contains, length,
  or_default, truthy, string_eq,
}
use ligp_v.Graph.Weights.{Weighing, max_of}

-- What the matcher computes with: 0, 1, 3, `+`, `-` and the quotient of two counts.
pub record Floats (W : Type 0) : Type 0 where
  pub zero_of : W
  pub one_of : W
  pub three_of : W
  pub add : W → W → W
  pub sub : W → W → W
  pub ratio : ℕ → ℕ → W

-- What is read of a node.
pub record Node : Type 0 where
  pub tags : List String
  pub qids : List String
  pub qid : Option String

pub record Event (W : Type 0) : Type 0 where
  pub tags : List String
  pub qids : List String
  pub boost_multiplier : Option W

-- `set(xs)`
unfoldable pub set_of : List String → List String
set_of [] = []
set_of (x ∷ xs) = let rest = set_of xs in if contains rest x then rest else x ∷ rest

-- `a & b`
unfoldable pub common : List String → List String → List String
common [] b = []
common (x ∷ a) b = let rest = common a b in if contains b x then x ∷ rest else rest

-- `a | b`
unfoldable pub joined : List String → List String → List String
joined [] b = b
joined (x ∷ a) b = let rest = joined a b in if contains b x then rest else x ∷ rest

unfoldable pub empty : List String → Bool
empty [] = true
empty (x ∷ xs) = false

-- `node_qids`
unfoldable pub qids_of : Node → List String
qids_of node =
    let qids = set_of node.qids in
    if truthy node.qid then set_of (or_default node.qid "" ∷ node.qids) else qids

module _ {W : Type 0} ⦃o : Weighing W⦄ ⦃f : Floats W⦄ where
  unfoldable pub jaccard : List String → List String → W
  jaccard a b =
      if empty a || empty b then f.zero_of else f.ratio (length (common a b)) (length (joined a b))

  unfoldable pub qid_hit : Node → Event W → Bool
  qid_hit node event =
      not (empty (common (qids_of node) (set_of event.tags)))
      || not (empty (common (qids_of node) (set_of event.qids)))

  -- The events that match, each with its `match_score`.
  unfoldable pub match_events : W → Node → List (Event W) → List (Event W × W)
  match_events jaccard_min node [] = []
  match_events jaccard_min node (event ∷ events) =
      let rest = match_events jaccard_min node events in
      let jac = jaccard (set_of node.tags) (set_of event.tags) in
      let hit = qid_hit node event in
      if not (o.less jac jaccard_min) || hit
      then (event, max_of jac (if hit then f.one_of else f.zero_of)) ∷ rest
      else rest

  -- `sum(max(0.0, boost - 1.0) for ...)`, from left to right.
  unfoldable pub extra_of : W → List (Event W × W) → W
  extra_of total [] = total
  extra_of total ((e, score) ∷ es) =
      extra_of
        (f.add total (max_of f.zero_of (f.sub (or_default e.boost_multiplier f.one_of) f.one_of)))
        es

  -- `clamp` of utils/helpers.py
  unfoldable pub clamp : W → W → W → W
  clamp value low high = let least = max_of low (if o.less value high then value else high) in least

  unfoldable pub compute_event_boost : List (Event W × W) → W
  compute_event_boost [] = f.one_of
  compute_event_boost (e ∷ es) =
      clamp (f.add f.one_of (extra_of f.zero_of (e ∷ es))) f.one_of f.three_of

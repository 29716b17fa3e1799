-- ===== src/Ingestion/Bucket.antt =====
-- `TokenBucket` of ingestion/base_collector.py. Tokens are counted exactly, in units of
-- `1 / window_sec` of a token: a bucket of `capacity` tokens holds `capacity * window_sec` units and
-- gains `capacity` units a second (`refill_rate = capacity / window_sec` tokens). The rounding of
-- floats is not modelled. A reading of `time.monotonic()` is the argument `now`, in seconds.
pub mod Quota
use ligp_v.Prelude.{
  ℕ, ◌+◌, ◌-◌, ◌*◌, ◌≤◌, ◌<◌, ◌≡◌, min, refl, Bool, true, false, arith, leb, ltb, if◌then◌else◌,
}

pub record TokenBucket : Type 0 where
  pub capacity : ℕ
  pub window_sec : ℕ
  pub tokens : ℕ
  pub last : ℕ

-- ValueError for a capacity that is not positive, ZeroDivisionError for an empty window.
pub data InitResult : Type 0 where
  built : TokenBucket → InitResult
  value_error zero_division_error : InitResult

unfoldable pub init : ℕ → ℕ → ℕ → InitResult
init capacity window_sec now =
    if leb capacity 0
    then value_error
    else if leb window_sec 0
    then zero_division_error
    else built (record {
      capacity = capacity;
      window_sec = window_sec;
      tokens = capacity * window_sec;
      last = now;
    })

unfoldable pub refill : ℕ → TokenBucket → TokenBucket
refill now b = record b {
  tokens = min (b.capacity * b.window_sec) (b.tokens + (now - b.last) * b.capacity);
  last = now;
}

unfoldable pub consume : ℕ → ℕ → TokenBucket → TokenBucket × Bool
unfolding refill
consume now tokens b =
    let b' = refill now b in
    if leb (tokens * b'.window_sec) b'.tokens
    then (record b' { tokens = b'.tokens - tokens * b'.window_sec }, true)
    else (b', false)

-- the property `available`, in units
unfoldable pub available : ℕ → TokenBucket → TokenBucket × ℕ
unfolding refill
available now b = let b' = refill now b in (b', b'.tokens)

-- ===== src/Ingestion/Breaker/Trip.antt =====
-- When the circuit breaker trips, rejects and recovers.
use ligp_v.Prelude.{
  ℕ, ◌+◌, ◌≤◌, ◌<◌, ◌≡◌, Bool, true, false, List, [], ◌∷◌, arith, leb, ltb, if◌then◌else◌, length,
}
use ligp_v.Ingestion.Breaker.{
  CircuitState, closed, open_circuit, half_open, CircuitBreaker, allow, record_success,
  record_failure,
}

-- How the failure count stands to the threshold in each state.
abbrev pub CountFits : CircuitState → ℕ → ℕ → Type 0
CountFits closed failures threshold = failures < threshold
CountFits open_circuit failures threshold = threshold ≤ failures
CountFits half_open failures threshold = threshold ≤ failures

abbrev pub IsConsistent : CircuitBreaker → Type 0
IsConsistent b = CountFits b.state b.failures b.failure_threshold

-- What can happen to a breaker, with the clock reading at which it happens.
pub data Event : Type 0 where
  probe : ℕ → Event
  success : Event
  failure : ℕ → Event

unfoldable pub step : CircuitBreaker → Event → CircuitBreaker
unfolding allow record_success record_failure
step b (probe now) = (allow now b).0
step b success = record_success b
step b (failure now) = record_failure now b

unfoldable pub run : CircuitBreaker → List Event → CircuitBreaker
unfolding step
run b [] = b
run b (e ∷ es) = run (step b e) es

pub step-IsConsistent :
    (b : CircuitBreaker) (e : Event)
    → 0 < b.failure_threshold
    → IsConsistent b
    → IsConsistent (step b e)
unfolding step
step-IsConsistent b (probe now) p h = ground arith
step-IsConsistent b success p h = ground arith
step-IsConsistent b (failure now) p h = ground arith

pub threshold-step :
    (b : CircuitBreaker) (e : Event) → (step b e).failure_threshold ≡ b.failure_threshold
unfolding step
threshold-step b (probe now) = ground arith
threshold-step b success = ground arith
threshold-step b (failure now) = ground arith

-- Along every sequence of probes, successes and failures, in any order, the failure count of a
-- breaker that starts closed with a positive threshold is below the threshold exactly when the
-- stored state is CLOSED.
pub run-IsConsistent :
    (b : CircuitBreaker) (es : List Event)
    → 0 < b.failure_threshold
    → IsConsistent b
    → IsConsistent (run b es)
unfolding run
run-IsConsistent b [] p h = h
run-IsConsistent b (e ∷ es) p h =
    run-IsConsistent (step b e) es (omega (arith, threshold-step b e)) (step-IsConsistent b e p h)

-- `k` failures in a row, at the given clock readings.
unfoldable pub fail_at : CircuitBreaker → List ℕ → CircuitBreaker
unfolding record_failure
fail_at b [] = b
fail_at b (now ∷ times) = fail_at (record_failure now b) times

-- A closed breaker after a row of failures: it is still closed if the row is too short to reach
-- the threshold, and open otherwise.
abbrev pub after_failures : Bool → CircuitState
after_failures true = open_circuit
after_failures false = closed

fail_at-open :
    (b : CircuitBreaker) (times : List ℕ)
    → b.state ≡ open_circuit
    → b.failure_threshold ≤ b.failures
    → (fail_at b times).state ≡ open_circuit
unfolding fail_at
fail_at-open b [] s h = s
fail_at-open b (now ∷ times) s h =
    fail_at-open (record_failure now b) times (ground arith) (ground arith)

-- From a closed breaker whose count is below the threshold, a row of consecutive failures leaves
-- it OPEN exactly when count and row together reach the threshold, and CLOSED otherwise.
pub state-fail_at :
    (b : CircuitBreaker) (times : List ℕ)
    → b.state ≡ closed
    → b.failures < b.failure_threshold
    → (fail_at b times).state ≡ after_failures (leb b.failure_threshold (b.failures + length times))
unfolding fail_at
state-fail_at b [] s h = ground arith
state-fail_at b (now ∷ times) s h =
    ground
      (arith, state-fail_at (record_failure now b) times, fail_at-open (record_failure now b) times)

-- An open breaker rejects a call exactly while the clock is before `opened_at + reset_timeout`; the
-- first probe from then on is let through and leaves it HALF_OPEN, and a rejected probe changes
-- nothing.
pub allow-open :
    (b : CircuitBreaker) (now : ℕ)
    → b.state ≡ open_circuit
    → allow now b ≡ (
        if ltb now (b.opened_at + b.reset_timeout)
        then (b, false)
        else (record b { state = half_open }, true))
unfolding allow
allow-open b now s = ground arith

-- A half-open breaker that meets the invariant, with a positive threshold, is open again after one failed probe, with the
-- timeout counted from that failure; after one successful probe it is closed, its count is 0 and it
-- meets the invariant.
pub half_open_outcome :
    (b : CircuitBreaker) (now : ℕ)
    → b.state ≡ half_open
    → 0 < b.failure_threshold
    → IsConsistent b
    → ((record_failure now b).state ≡ open_circuit)
      × ((record_failure now b).opened_at ≡ now)
      × ((record_success b).state ≡ closed)
      × ((record_success b).failures ≡ 0)
      × IsConsistent (record_success b)
unfolding record_failure record_success
half_open_outcome b now s p h = ground arith

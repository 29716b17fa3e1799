-- ===== src/Ingestion/Breaker.antt =====
-- `CircuitState` and `CircuitBreaker` of ingestion/base_collector.py. A reading of
-- `time.monotonic()` is the argument `now`, in ticks of that clock; the lock makes a method one step.
pub mod Trip
use ligp_v.Prelude.{
  ℕ, ◌+◌, ◌≤◌, ◌<◌, ◌≡◌, refl, Bool, true, false, not, ◌&&◌, List, [], ◌∷◌, arith, leb,
  if◌then◌else◌,
}

pub data CircuitState : Type 0 where
  closed open_circuit half_open : CircuitState

pub record CircuitBreaker : Type 0 where
  pub failure_threshold : ℕ
  pub reset_timeout : ℕ
  pub state : CircuitState
  pub failures : ℕ
  pub opened_at : ℕ

-- `_state == CircuitState.OPEN`
abbrev pub is_open : CircuitState → Bool
is_open closed = false
is_open open_circuit = true
is_open half_open = false

unfoldable pub init : ℕ → ℕ → CircuitBreaker
init failure_threshold reset_timeout = record {
  failure_threshold = failure_threshold;
  reset_timeout = reset_timeout;
  state = closed;
  failures = 0;
  opened_at = 0;
}

-- `_current_state`, with the write of HALF_OPEN. `now - opened_at >= reset_timeout` is written as a
-- sum, so that no subtraction is cut off.
unfoldable pub current_state : ℕ → CircuitBreaker → CircuitBreaker × CircuitState
current_state now b =
    if is_open b.state && leb (b.opened_at + b.reset_timeout) now
    then (record b { state = half_open }, half_open)
    else (b, b.state)

-- the property `state`
unfoldable pub state_of : ℕ → CircuitBreaker → CircuitBreaker × CircuitState
unfolding current_state
state_of now b = current_state now b

unfoldable pub allow : ℕ → CircuitBreaker → CircuitBreaker × Bool
unfolding current_state
allow now b = let (b', s) = current_state now b in (b', not (is_open s))

unfoldable pub record_success : CircuitBreaker → CircuitBreaker
record_success b = record b { failures = 0; state = closed }

unfoldable pub record_failure : ℕ → CircuitBreaker → CircuitBreaker
record_failure now b =
    let b' = record b { failures = b.failures + 1 } in
    if leb b'.failure_threshold b'.failures
    then record b' { state = open_circuit; opened_at = now }
    else b'

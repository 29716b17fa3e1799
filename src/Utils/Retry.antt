-- ===== src/Utils/Retry.antt =====
-- `compute_delay` and the wrapper that `retry` builds, of utils/retry.py. Delays are whole numbers
-- of a time unit; `random.uniform(0, delay)` is the parameter `uniform`.
pub mod Delay
pub mod Loop
use ligp_v.Prelude.{
  ℕ, zero, suc, ◌+◌, ◌-◌, ◌*◌, ◌^◌, ◌≤◌, ◌<◌, ◌≡◌, min, refl, Bool, true, false, Option, none, some,
  List, [], ◌∷◌, ◌++◌, arith, leb, ltb, if◌then◌else◌, String, ◌==◌, string_eq,
}

-- The loop `for _ in range(attempt - 1): a, b = b, a + b`, from its rounds, `a` and `b`.
unfoldable pub fibonacci_loop : ℕ → ℕ → ℕ → ℕ
fibonacci_loop zero a b = a
fibonacci_loop (suc rounds) a b = fibonacci_loop rounds b (a + b)

-- The delay before the cap: the three strategies, for an attempt from 1 on.
unfoldable pub raw_delay : String → ℕ → ℕ → ℕ
unfolding fibonacci_loop
raw_delay strategy base attempt =
    if strategy == "linear"
    then base * attempt
    else if strategy == "fibonacci"
    then base * fibonacci_loop (attempt - 1) 1 1
    else base * 2 ^ (attempt - 1)

module _ (uniform : ℕ → ℕ) where
  unfoldable pub compute_delay : ℕ → String → ℕ → ℕ → Bool → ℕ
  compute_delay attempt strategy base max_delay jitter =
      let attempt = if ltb attempt 1 then 1 else attempt in
      let delay = min (raw_delay strategy base attempt) max_delay in
      if jitter then uniform delay else delay

-- How a call of the decorated function ends: a value, an exception among `exceptions`, or another
-- one, which the wrapper does not catch.
pub data Outcome (A E : Type 0) : Type 0 where
  returned : A → Outcome A E
  caught : E → Outcome A E
  escaped : E → Outcome A E

-- How the wrapper ends. Without a single attempt its `assert` fails.
pub data Result (A E : Type 0) : Type 0 where
  value : A → Result A E
  raised : E → Result A E
  assertion_error : Result A E

module _ {S A E : Type 0} (func : S → Outcome A E × S) (sleep : ℕ → S → S) (delay : ℕ → ℕ) where
  -- The loop of `sync_wrapper` and `async_wrapper`, from the rounds left, the number of the next
  -- attempt and `last`. `max_attempts` is `attempt + rounds - 1` all along.
  unfoldable pub retry_loop : ℕ → ℕ → Option E → S → Result A E × S
  retry_loop zero attempt none s = (assertion_error, s)
  retry_loop zero attempt (some e) s = (raised e, s)
  retry_loop (suc rounds) attempt last s =
      let (outcome, s') = func s in
      elim outcome [
        | returned a ↦ (value a, s')
        | escaped e ↦ (raised e, s')
        | caught e ↦ elim rounds [
          | zero ↦ (raised e, s')
          | suc _ ↦ retry_loop rounds (attempt + 1) (some e) (sleep (delay attempt) s')
        ]
      ]

  unfoldable pub wrapper : ℕ → S → Result A E × S
  unfolding retry_loop
  wrapper max_attempts s = retry_loop max_attempts 1 none s

-- ===== src/Ingestion/Collector/Attempts.antt =====
-- How often `collect` fetches. The source is given by the outcomes of its successive fetches; the
-- world counts them, and its clock is moved by fetches of any length and by the sleeps.
use ligp_v.Prelude.{
  ℕ, zero, suc, ◌+◌, ◌-◌, ◌<◌, ◌≡◌, true, false, Option, some, List, arith, String, leb, ◌⊎◌, inl,
  min,
}
use native.Mathlib.Nat.{add-zero}
use ligp_v.Ingestion.Breaker.{
  CircuitBreaker, closed, open_circuit, allow, record_success, record_failure,
}
use ligp_v.Ingestion.Breaker.Trip.{after_failures}
use ligp_v.Ingestion.DeadLetters.{Letter}
use ligp_v.Ingestion.Collector.{CollectorConfig, Fetched, items, failed, attempts, delay}

pub record World : Type 0 where
  pub clock : ℕ
  pub fetches : ℕ

abbrev pub now : World → ℕ
now w = w.clock

abbrev pub sleep : ℕ → World → World
sleep d w = record w { clock = w.clock + d }

-- A failure that the closed breaker takes: open if it was the last one allowed, closed if not.
failure_trips :
    (b : CircuitBreaker) (t : ℕ)
    → b.state ≡ closed
    → 0 < b.reset_timeout
    → b.failures + 1 ≡ b.failure_threshold
    → ((allow t (record_failure t b)).1 ≡ false)
      × ((allow t (record_failure t b)).0.state ≡ open_circuit)
unfolding allow record_failure
failure_trips b t s p h = ground arith

failure_kept :
    (b : CircuitBreaker) (t : ℕ)
    → b.state ≡ closed
    → b.failures + 1 < b.failure_threshold
    → allow t (record_failure t b) ≡ (record b { failures = b.failures + 1 }, true)
unfolding allow record_failure
failure_kept b t s h = ground arith

add_one_left : (a j : ℕ) → a + 1 + j ≡ a + suc j
add_one_left a j = omega arith

module _ {I Q : Type 0} (script : ℕ → Fetched I) (took : ℕ → ℕ) where
  -- A fetch: the next outcome of the script.
  abbrev pub fetch : Q → World → Fetched I × World
  fetch kwargs w =
      (script w.fetches, record { clock = w.clock + took w.fetches; fetches = w.fetches + 1 })

  module _ (uniform : ℕ → ℕ) (stamp : World → String) (dumps : Letter (String × Q) → String)
      (c : CollectorConfig) (kwargs : Q) where
    abbrev pub loop :
        ℕ
        → ℕ
        → Option String
        → CircuitBreaker
        → World
        → (CircuitBreaker × World) × (List I ⊎ Option String)
    loop = attempts now fetch sleep uniform stamp dumps c kwargs

    -- A source that always fails is fetched from until the attempts are used up or the closed
    -- breaker trips, whichever comes first; a breaker that trips ends the loop.
    pub attempts_all_failed :
        (message : ℕ → String)
        → ((n : ℕ) → script n ≡ failed (message n))
        → (rounds attempt : ℕ) (last_error : Option String) (b : CircuitBreaker) (w : World)
        → b.state ≡ closed
        → b.failures < b.failure_threshold
        → 0 < b.reset_timeout
        → ((loop rounds attempt last_error b w).0.1.fetches
            ≡ w.fetches + min rounds (b.failure_threshold - b.failures))
          × ((loop rounds attempt last_error b w).0.0.state
              ≡ after_failures (leb b.failure_threshold (b.failures + rounds)))
    unfolding attempts
    attempts_all_failed message f zero attempt last_error b w s h p = ground arith
    attempts_all_failed message f (suc zero) attempt last_error b w s h p =
        unfold record_failure in ground (arith, f w.fetches)
    attempts_all_failed message f (suc (suc rounds)) attempt last_error b w s h p =
        let w' = (fetch kwargs w).1 in
        ground (
          arith,
          f w.fetches,
          failure_trips b w'.clock,
          failure_kept b w'.clock,
          attempts_all_failed message f (suc rounds) (attempt + 1) (some (message w.fetches))
              (record b { failures = b.failures + 1 }) (sleep (delay uniform c attempt) w'),
        )

    -- If the first `n` fetches fail and the next one brings items, and neither the attempts nor the
    -- breaker run out before it, the loop returns those items after `n + 1` fetches and leaves the
    -- breaker closed with a count of 0.
    pub attempts_recover :
        (message : ℕ → String) (n : ℕ) (found : List I) (rounds attempt : ℕ)
        (last_error : Option String) (b : CircuitBreaker) (w : World)
        → ((j : ℕ) → j < n → script (w.fetches + j) ≡ failed (message j))
        → script (w.fetches + n) ≡ items found
        → n < rounds
        → b.state ≡ closed
        → b.failures + n < b.failure_threshold
        → ((loop rounds attempt last_error b w).1 ≡ inl found)
          × ((loop rounds attempt last_error b w).0.1.fetches ≡ w.fetches + n + 1)
          × ((loop rounds attempt last_error b w).0.0.state ≡ closed)
          × ((loop rounds attempt last_error b w).0.0.failures ≡ 0)
    unfolding attempts
    attempts_recover message n found zero attempt last_error b w fs g lt s h = absurd (omega arith)
    attempts_recover message zero found (suc rounds) attempt last_error b w fs g lt s h =
        let g' : script w.fetches ≡ items found = rw (add-zero w.fetches) at g in
        unfold record_success in rw g' (ground arith)
    attempts_recover message (suc n) found (suc zero) attempt last_error b w fs g lt s h =
        absurd (omega arith)
    attempts_recover message (suc n) found (suc (suc rounds)) attempt last_error b w fs g lt s h =
        let first : script w.fetches ≡ failed (message 0) =
          rw (add-zero w.fetches) at (fs 0 (omega arith)) in
        let w' = (fetch kwargs w).1 in
        let next : (j : ℕ) → j < n → script (w.fetches + 1 + j) ≡ failed (message (suc j)) =
          λ j below. rw (add_one_left w.fetches j) (fs (suc j) (omega arith)) in
        ground (
          arith,
          first,
          failure_kept b w'.clock,
          attempts_recover (λ j. message (suc j)) n found (suc rounds) (attempt + 1)
              (some (message 0)) (record b { failures = b.failures + 1 })
              (sleep (delay uniform c attempt) w') next (rw (add_one_left w.fetches n) g),
        )

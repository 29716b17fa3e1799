-- ===== src/Ingestion/Collector/Gates.antt =====
-- Quota and circuit breaker in front of a fetch, and the breaker's invariant through `collect`.
use ligp_v.Prelude.{
  ℕ, zero, suc, ◌+◌, ◌<◌, ◌≤◌, ◌≡◌, Option, none, some, List, [], arith, String, ◌⊎◌, inl, inr,
  Bool-cases,
}
use ligp_v.Ingestion.Breaker.{CircuitBreaker, open_circuit, allow, record_success, record_failure}
use ligp_v.Ingestion.Breaker.Trip.{IsConsistent, Event, step, step-IsConsistent, threshold-step}
use ligp_v.Ingestion.Bucket.{consume, refill}
use ligp_v.Ingestion.DeadLetters.{Letter}
use ligp_v.Ingestion.Collector.{
  CollectorConfig, Collector, Fetched, attempts, finish, collect, delay, Fetched-cases,
}

-- The part of the invariant that a step hands on: the count fits, for a positive threshold.
abbrev pub IsSound : CircuitBreaker → Type 0
IsSound b = (0 < b.failure_threshold) × IsConsistent b

success-IsSound : (b : CircuitBreaker) → IsSound b → IsSound (record_success b)
unfolding step
success-IsSound b h = (h.0, step-IsConsistent b Event.success h.0 h.1)

failure-IsSound : (b : CircuitBreaker) (now : ℕ) → IsSound b → IsSound (record_failure now b)
unfolding step
failure-IsSound b now h = (
  omega (arith, threshold-step b (Event.failure now)),
  step-IsConsistent b (Event.failure now) h.0 h.1,
)

allow-IsSound : (b : CircuitBreaker) (now : ℕ) → IsSound b → IsSound (allow now b).0
unfolding step
allow-IsSound b now h = (
  omega (arith, threshold-step b (Event.probe now)),
  step-IsConsistent b (Event.probe now) h.0 h.1,
)

module _ {S I Q : Type 0} (now : S → ℕ) (fetch : Q → S → Fetched I × S) (sleep : ℕ → S → S)
    (uniform : ℕ → ℕ) (stamp : S → String) (dumps : Letter (String × Q) → String) where
  abbrev loop :
      CollectorConfig
      → Q
      → ℕ
      → ℕ
      → Option String
      → CircuitBreaker
      → S
      → (CircuitBreaker × S) × (List I ⊎ Option String)
  loop = attempts now fetch sleep uniform stamp dumps

  abbrev call : Collector Q → Q → S → (Collector Q × List I) × S
  call = collect now fetch sleep uniform stamp dumps

  attempts-IsSound :
      (c : CollectorConfig) (kwargs : Q) (rounds attempt : ℕ) (last_error : Option String)
      (b : CircuitBreaker) (s : S)
      → IsSound b
      → IsSound (loop c kwargs rounds attempt last_error b s).0.0
  unfolding attempts
  attempts-IsSound c kwargs zero attempt last_error b s h = h
  attempts-IsSound c kwargs (suc zero) attempt last_error b s h =
      elim (Fetched-cases (fetch kwargs s).0) [
        | inl (xs, e) ↦ rw (e, attempts) (success-IsSound b h)
        | inr (m, e) ↦ rw (e, attempts) (failure-IsSound b (now (fetch kwargs s).1) h)
      ]
  attempts-IsSound c kwargs (suc (suc rounds)) attempt last_error b s h =
      let s' = (fetch kwargs s).1 in
      let b' = record_failure (now s') b in
      let h' : IsSound (allow (now s') b').0 =
        allow-IsSound b' (now s') (failure-IsSound b (now s') h) in
      elim (Fetched-cases (fetch kwargs s).0) [
        | inl (xs, e) ↦ rw (e, attempts) (success-IsSound b h)
        | inr (m, e) ↦ elim (Bool-cases (allow (now s') b').1) [
          | inl p ↦
              rw (e, p, attempts)
                (attempts-IsSound c kwargs (suc rounds) (attempt + 1) (some m) (allow (now s') b').0
                  (sleep (delay uniform c attempt) s') h')
          | inr p ↦ rw (e, p, attempts) h'
        ]
      ]

  finish-IsSound :
      (k : Collector Q) (kwargs : Q) (r : (CircuitBreaker × S) × (List I ⊎ Option String))
      → IsSound r.0.0
      → IsSound (finish now fetch sleep uniform stamp dumps k kwargs r).0.0.breaker
  unfolding finish
  finish-IsSound k kwargs ((b, s), inl found) h = h
  finish-IsSound k kwargs ((b, s), inr last_error) h = h

  -- With less than one token in the bucket after its refill, `collect` returns no items and fetches
  -- nothing: the world, the breaker and the dead letter queue are as before.
  pub collect_without_quota :
      (k : Collector Q) (kwargs : Q) (s : S)
      → (refill (now s) k.bucket).tokens < k.bucket.window_sec
      → call k kwargs s ≡ ((record k { bucket = refill (now s) k.bucket }, []), s)
  unfolding collect consume
  collect_without_quota k kwargs s h = ground arith

  -- With a token in the bucket and the breaker open before its timeout, `collect` spends the token,
  -- returns no items and fetches nothing: the world, the breaker and the queue are as before.
  pub collect_while_open :
      (k : Collector Q) (kwargs : Q) (s : S)
      → k.bucket.window_sec ≤ (refill (now s) k.bucket).tokens
      → k.breaker.state ≡ open_circuit
      → now s < k.breaker.opened_at + k.breaker.reset_timeout
      → call k kwargs s ≡ ((record k { bucket = (consume (now s) 1 k.bucket).0 }, []), s)
  unfolding collect consume allow
  collect_while_open k kwargs s h o t = ground arith

  collect-IsSound :
      (k : Collector Q) (kwargs : Q) (s : S)
      → IsSound k.breaker
      → IsSound (call k kwargs s).0.0.breaker
  unfolding collect
  collect-IsSound k kwargs s h =
      let (b, granted) = consume (now s) 1 k.bucket in
      let (b', allowed) = allow (now s) k.breaker in
      let h' : IsSound b' = allow-IsSound k.breaker (now s) h in
      elim (Bool-cases granted) [
        | inr p ↦ rw p h
        | inl p ↦ rw p (elim (Bool-cases allowed) [
          | inr q ↦ rw q h'
          | inl q ↦ rw q (
              finish-IsSound (record k { bucket = b; breaker = b' }) kwargs
                (loop k.config kwargs k.config.max_retries 1 none b' s)
                (attempts-IsSound k.config kwargs k.config.max_retries 1 none b' s h'))
        ])
      ]

  -- Whatever the source does, `collect` keeps the breaker's invariant: the failure count is below
  -- the threshold exactly in the CLOSED state.
  pub collect-IsConsistent :
      (k : Collector Q) (kwargs : Q) (s : S)
      → 0 < k.breaker.failure_threshold
      → IsConsistent k.breaker
      → IsConsistent (call k kwargs s).0.0.breaker
  collect-IsConsistent k kwargs s p h = (collect-IsSound k kwargs s (p, h)).1

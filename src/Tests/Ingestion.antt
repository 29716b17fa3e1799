-- ===== src/Tests/Ingestion.antt =====
-- The resilience primitives and the collector on concrete inputs.
use ligp_v.Prelude.{
  ℕ, zero, suc, ◌+◌, ◌≡◌, ◌<◌, refl, false, none, List, [], ◌∷◌, arith, String, inl,
}
use ligp_v.Ingestion.Breaker
use ligp_v.Ingestion.Breaker.{
  CircuitBreaker, closed, open_circuit, half_open, allow, record_failure, record_success,
}
use ligp_v.Ingestion.Breaker.Trip.{IsConsistent, Event, run, run-IsConsistent, fail_at}
use ligp_v.Ingestion.Bucket
use ligp_v.Ingestion.Bucket.{TokenBucket, built, consume, refill, available}
use ligp_v.Ingestion.DeadLetters.{Letter}
use ligp_v.Ingestion.Collector.{CollectorConfig, Collector, Fetched, items, failed, attempts}
use ligp_v.Ingestion.Collector.Attempts
use ligp_v.Ingestion.Collector.Attempts.{World, attempts_all_failed, attempts_recover}

-- A breaker that trips at three failures and probes again after 60 ticks.
abbrev fresh : CircuitBreaker
fresh = record {
  failure_threshold = 3;
  reset_timeout = 60;
  state = closed;
  failures = 0;
  opened_at = 0;
}

abbrev tripped : CircuitBreaker
tripped = record fresh { state = open_circuit; failures = 3; opened_at = 7 }

built_breaker : Breaker.init 3 60 ≡ fresh
unfolding Breaker.init
built_breaker = refl

three_failures : fail_at fresh (5 ∷ 6 ∷ 7 ∷ []) ≡ tripped
unfolding fail_at
three_failures = refl

abbrev history : List Event
history =
    Event.failure 5
    ∷ Event.failure 6
    ∷ Event.failure 7
    ∷ Event.probe 50
    ∷ Event.probe 67
    ∷ Event.failure 68
    ∷ Event.success
    ∷ []

run-IsConsistent_example : IsConsistent (run fresh history)
run-IsConsistent_example = run-IsConsistent fresh history (omega arith) (omega arith)

-- Ten tokens over a window of five seconds.
abbrev bucket : TokenBucket
bucket = record { capacity = 10; window_sec = 5; tokens = 50; last = 100 }

init_bucket : Bucket.init 10 5 100 ≡ built bucket
unfolding Bucket.init
init_bucket = refl

-- A source that fails twice and then delivers; a fetch takes two seconds.
abbrev script : ℕ → Fetched ℕ
script zero = failed "timeout"
script (suc zero) = failed "reset"
script (suc (suc n)) = items (4 ∷ 5 ∷ [])

abbrev down : ℕ → Fetched ℕ
down n = failed "down"

abbrev config : CollectorConfig
config = record {
  platform_id = "rss";
  api_quota_per_day = 10;
  quota_window_sec = 5;
  backoff_strategy = "linear";
  backoff_base_sec = 2;
  backoff_max_sec = 300;
  jitter = false;
  failure_threshold = 3;
  reset_timeout_sec = 60;
  max_retries = 5;
}

abbrev start : World
start = record { clock = 100; fetches = 0 }

abbrev collector : Collector ℕ
collector = record {
  config = config;
  breaker = fresh;
  bucket = bucket;
  dlq = record { max_retries = 5; has_path = false; items = []; file = [] };
}

abbrev stamp : World → String
stamp w = "now"

abbrev dumps : Letter (String × ℕ) → String
dumps l = l.error

abbrev same : ℕ → ℕ
same d = d

messages : ℕ → String
messages zero = "timeout"
messages (suc n) = "reset"

two_failures : (j : ℕ) → j < 2 → script (0 + j) ≡ failed (messages j)
unfolding messages
two_failures zero h = refl
two_failures (suc zero) h = refl
two_failures (suc (suc j)) h = absurd (omega arith)

attempts_recover_example :
    ((attempts Attempts.now
        (Attempts.fetch script same)
        Attempts.sleep
        same
        stamp
        dumps
        config
        0
        5
        1
        none
        fresh
        start).1
      ≡ inl (4 ∷ 5 ∷ []))
    × ((attempts Attempts.now
          (Attempts.fetch script same)
          Attempts.sleep
          same
          stamp
          dumps
          config
          0
          5
          1
          none
          fresh
          start).0.1.fetches
        ≡ 0 + 2 + 1)
    × ((attempts Attempts.now
          (Attempts.fetch script same)
          Attempts.sleep
          same
          stamp
          dumps
          config
          0
          5
          1
          none
          fresh
          start).0.0.state
        ≡ closed)
    × ((attempts Attempts.now
          (Attempts.fetch script same)
          Attempts.sleep
          same
          stamp
          dumps
          config
          0
          5
          1
          none
          fresh
          start).0.0.failures
        ≡ 0)
attempts_recover_example =
    attempts_recover script same same stamp dumps config 0 messages 2 (4 ∷ 5 ∷ []) 5 1 none fresh
      start two_failures refl (omega arith) refl (omega arith)

-- ===== src/Ingestion/Collector.antt =====
-- `CollectorConfig`, and `BaseCollector` of ingestion/base_collector.py. The world that a collector
-- acts in (clock, source, event loop) is a state `S`; `fetch`, the clock and `asyncio.sleep` are the
-- parameters of the section below.
pub mod Attempts
pub mod Gates
use ligp_v.Prelude.{
  ℕ, zero, suc, ◌+◌, ◌≡◌, refl, Bool, true, false, not, ◌||◌, Option, none, some, List, [], ◌∷◌,
  ◌++◌, arith, if◌then◌else◌, String, length, nat_beq, or_default, ◌⊎◌, inl, inr,
}
use ligp_v.Dict.{Dict, get}
use ligp_v.Utils.Retry.{compute_delay}
use ligp_v.Ingestion.Breaker
use ligp_v.Ingestion.Breaker.{
  CircuitBreaker, CircuitState, allow, record_success, record_failure, state_of,
}
use ligp_v.Ingestion.Bucket
use ligp_v.Ingestion.Bucket.{TokenBucket, consume, available}
use ligp_v.Ingestion.DeadLetters
use ligp_v.Ingestion.DeadLetters.{DeadLetterQueue, Letter, push, len}

pub record CollectorConfig : Type 0 where
  pub platform_id : String
  pub api_quota_per_day : ℕ
  pub quota_window_sec : ℕ
  pub backoff_strategy : String
  pub backoff_base_sec : ℕ
  pub backoff_max_sec : ℕ
  pub jitter : Bool
  pub failure_threshold : ℕ
  pub reset_timeout_sec : ℕ
  pub max_retries : ℕ

-- The keys that `from_platform` reads of a platforms.yaml entry or of its `defaults` block; a key
-- that is not there is `none`.
pub record PlatformEntry : Type 0 where
  pub api_quota_per_day : Option ℕ
  pub quota_window_sec : Option ℕ
  pub backoff_strategy : Option String
  pub backoff_base_sec : Option ℕ
  pub backoff_max_sec : Option ℕ
  pub jitter : Option Bool
  pub failure_threshold : Option ℕ
  pub reset_timeout_sec : Option ℕ

-- `platform.get(k, d.get(k, fallback))`, and the merge of the two `circuit_breaker` blocks.
abbrev pub first_some {ℓ} : {A : Type ℓ} → Option A → Option A → Option A
first_some none b = b
first_some (some a) b = some a

unfoldable pub from_platform : String → PlatformEntry → PlatformEntry → CollectorConfig
from_platform platform_id p d = record {
  platform_id = platform_id;
  api_quota_per_day = or_default p.api_quota_per_day 10000;
  quota_window_sec = or_default (first_some p.quota_window_sec d.quota_window_sec) 86400;
  backoff_strategy = or_default (first_some p.backoff_strategy d.backoff_strategy) "exponential";
  backoff_base_sec = or_default d.backoff_base_sec 2;
  backoff_max_sec = or_default d.backoff_max_sec 300;
  jitter = or_default d.jitter true;
  failure_threshold = or_default (first_some p.failure_threshold d.failure_threshold) 5;
  reset_timeout_sec = or_default (first_some p.reset_timeout_sec d.reset_timeout_sec) 60;
  max_retries = 5;
}

-- How `fetch` ends: with items, or with an exception and its text.
pub data Fetched (I : Type 0) : Type 0 where
  items : List I → Fetched I
  failed : String → Fetched I

pub Fetched-cases :
    {I : Type 0} (f : Fetched I)
    → ((xs : List I) × (f ≡ items xs)) ⊎ ((e : String) × (f ≡ failed e))
Fetched-cases (items xs) = inl (xs, refl)
Fetched-cases (failed e) = inr (e, refl)

-- `kwargs` is the payload's second part, `Q`.
pub record Collector (Q : Type 0) : Type 0 where
  pub config : CollectorConfig
  pub breaker : CircuitBreaker
  pub bucket : TokenBucket
  pub dlq : DeadLetterQueue (String × Q)

-- The delay that `collect` asks for after a failed attempt.
abbrev pub delay : (ℕ → ℕ) → CollectorConfig → ℕ → ℕ
delay uniform c attempt =
    compute_delay uniform attempt c.backoff_strategy c.backoff_base_sec c.backoff_max_sec c.jitter

module _ {S I Q : Type 0} (now : S → ℕ) (fetch : Q → S → Fetched I × S) (sleep : ℕ → S → S)
    (uniform : ℕ → ℕ) (stamp : S → String) (dumps : Letter (String × Q) → String) where
  -- The loop over the attempts, from the rounds left, the number of the attempt and `last_error`:
  -- the breaker and the world that it leaves, and the items or the last error.
  unfoldable pub attempts :
      CollectorConfig
      → Q
      → ℕ
      → ℕ
      → Option String
      → CircuitBreaker
      → S
      → (CircuitBreaker × S) × (List I ⊎ Option String)
  attempts c kwargs zero attempt last_error b s = ((b, s), inr last_error)
  attempts c kwargs (suc rounds) attempt last_error b s =
      let (outcome, s') = fetch kwargs s in
      elim outcome [
        | items found ↦ ((record_success b, s'), inl found)
        | failed e ↦
            let b' = record_failure (now s') b in
            elim rounds [
              | zero ↦ ((b', s'), inr (some e))
              | suc _ ↦
                  let (b'', allowed) = allow (now s') b' in
                  elim allowed [
                    | true ↦
                        attempts c kwargs rounds (attempt + 1) (some e) b''
                          (sleep (delay uniform c attempt) s')
                    | false ↦ ((b'', s'), inr (some e))
                  ]
            ]
      ]

  -- `str(last_error)`
  abbrev pub str : Option String → String
  str none = "None"
  str (some e) = e

  -- After the loop: the items, or a letter in the dead letter queue and no items.
  unfoldable pub finish :
      Collector Q → Q → (CircuitBreaker × S) × (List I ⊎ Option String) → (Collector Q × List I) × S
  finish k kwargs ((b, s), outcome) = elim outcome [
    | inl found ↦ ((record k { breaker = b }, found), s)
    | inr last_error ↦ (
      (
        record k {
          breaker = b;
          dlq =
              push dumps (stamp s) (k.config.platform_id, kwargs) (str last_error)
                k.config.max_retries k.dlq;
        },
        [],
      ),
      s,
    )
  ]

  unfoldable pub collect : Collector Q → Q → S → (Collector Q × List I) × S
  unfolding finish
  collect k kwargs s =
      let (bucket, granted) = consume (now s) 1 k.bucket in
      let k = record k { bucket = bucket } in
      if not granted
      then ((k, []), s)
      else let (breaker, allowed) = allow (now s) k.breaker in
        let k = record k { breaker = breaker } in
        if not allowed
        then ((k, []), s)
        else finish k kwargs (attempts k.config kwargs k.config.max_retries 1 none breaker s)

-- `health_check` at the clock reading `now`: the platform, the state of the breaker, the tokens
-- available, in units of the bucket and not rounded, and the size of the queue. The reads of the
-- two properties move the breaker and refill the bucket.
pub record Health : Type 0 where
  pub platform : String
  pub circuit_state : CircuitState
  pub tokens_available : ℕ
  pub dlq_size : ℕ

unfoldable pub health_check : {Q : Type 0} → ℕ → Collector Q → Collector Q × Health
health_check now k =
    let (breaker, state) = state_of now k.breaker in
    let (bucket, tokens) = available now k.bucket in
    (
      record k { breaker = breaker; bucket = bucket },
      record {
        platform = k.config.platform_id;
        circuit_state = state;
        tokens_available = tokens;
        dlq_size = len k.dlq;
      },
    )

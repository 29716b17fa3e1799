-- ===== src/Tests/Utils.antt =====
-- Backoff and rate limiting on concrete inputs.
use ligp_v.Prelude.{
  ℕ, zero, suc, ◌+◌, ◌*◌, ◌≡◌, refl, true, false, none, some, arith, String, leb, min,
}
use ligp_v.Prelude.{string_eq, ◌==◌, Bool, Option, if◌then◌else◌}
use ligp_v.Prelude.Int.{pos}
use ligp_v.Dict.{Dict, get, put, remove, member, get-put_self}
use ligp_v.Utils.Cache.{Redis}
use ligp_v.Utils.Cache.Roundtrip.{IsRedis}
use ligp_v.Utils.Retry.{compute_delay, raw_delay, Outcome, returned, caught}
use ligp_v.Utils.RateLimiter
use ligp_v.Utils.RateLimiter.{
  InMemoryTokenBucket, acquire, wait_time, Hash, lua_acquire, DistributedTokenBucket,
  distributed_acquire,
}
use ligp_v.Utils.RateLimiter.Agreement.{
  bucket_of, reply_of, lua_acquire-acquire, lua_acquire-lua_acquire,
}

abbrev same : ℕ → ℕ
same d = d

fifth_fibonacci : compute_delay same 5 "fibonacci" 2 300 false ≡ 10
unfolding compute_delay raw_delay
fifth_fibonacci = refl

capped : compute_delay same 20 "exponential" 2 300 true ≡ 300
unfolding compute_delay raw_delay
capped = refl

-- Two failures, then a value.
abbrev outcomes : ℕ → Outcome ℕ String
outcomes zero = caught "timeout"
outcomes (suc zero) = caught "reset"
outcomes (suc (suc n)) = returned 42

-- Refilled at 100, and read at 97 by a clock that has gone back.
abbrev late : Hash
late = record { tokens = 5; last_refill = 100; expires_at = 3700 }

lua_acquire-acquire_example :
    (pos (lua_acquire 10 1 97 4 (some late)).0.tokens
      ≡ (acquire 100 4 (bucket_of 10 1 late)).0.tokens)
    × ((lua_acquire 10 1 97 4 (some late)).0.last_refill ≡ 97)
    × ((lua_acquire 10 1 97 4 (some late)).1 ≡ reply_of (acquire 100 4 (bucket_of 10 1 late)).1)
    × (bucket_of 10 1 (lua_acquire 10 1 97 4 none).0 ≡ (acquire 97 4 (RateLimiter.init 10 1 97)).0)
    × ((lua_acquire 10 1 97 4 none).1 ≡ reply_of (acquire 97 4 (RateLimiter.init 10 1 97)).1)
lua_acquire-acquire_example = lua_acquire-acquire 10 1 97 4 late (omega arith)

-- At that reading the script grants what the formula of the in-process bucket refuses.
script_clamps : (lua_acquire 10 1 97 4 (some late)).1 ≡ 1
unfolding lua_acquire
script_clamps = refl

bucket_falls : (acquire 97 4 (bucket_of 10 1 late)).1 ≡ false
unfolding acquire
bucket_falls = refl

-- A slow bucket that is idle for an hour.
lua_acquire-lua_acquire_example :
    (lua_acquire 10000 1 (100 + 3600) 9000 (some (lua_acquire 10000 1 100 9997 none).0)).1
    ≡ reply_of (
        leb 9000 (
          if leb 3600 3600
          then 10000
          else min 10000 ((lua_acquire 10000 1 100 9997 none).0.tokens + 3600 * 1)))
lua_acquire-lua_acquire_example = lua_acquire-lua_acquire 10000 1 100 9997 9000 3600 none

abbrev client : DistributedTokenBucket
client = record {
  capacity = 10;
  refill_rate = 2;
  fallback = record { capacity = 10; refill_rate = 2; tokens = pos 10; last = 0 };
  connected = true;
}

-- A server that keeps everything.
abbrev redis : Redis (Dict String String)
redis = record {
  up = λ d. true;
  get_text = λ key d. get key d;
  setex = λ key ttl text d. put key text d;
  del = λ key d. remove key d;
  has = λ key d. member key d;
}

redis-IsRedis : IsRedis redis
redis-IsRedis = record {
  get-setex = λ key text ttl d p. get-put_self key text d;
  up-setex = λ key text ttl d. refl;
}

abbrev text_of : Bool → String
text_of b = if b then "yes" else "no"

abbrev read : String → Option Bool
read text = some (text == "yes")

abbrev space : String → String
space key = "naver"

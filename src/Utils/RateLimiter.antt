-- ===== src/Utils/RateLimiter.antt =====
-- utils/rate_limiter.py: the in-process bucket, the Lua script that Redis runs, and the distributed
-- bucket that falls back from the second to the first. Tokens and seconds are whole numbers of a
-- unit fine enough for the rates in use, and the rounding of floats is not modelled.
pub mod Agreement
pub mod Fallback
use ligp_v.Prelude.{
  ℕ, suc, ◌+◌, ◌-◌, ◌*◌, ◌≤◌, ◌<◌, ◌≡◌, min, refl, Bool, true, false, Option, none, some, arith,
  leb, ltb, if◌then◌else◌, nat_beq, not,
}
use ligp_v.Prelude.Int.{ℤ, pos, negsuc, sub_ℕ, shift, cap_ℤ, reached}

-- `_InMemoryTokenBucket`. Its time is not clamped, so the tokens fall if the clock goes back.
pub record InMemoryTokenBucket : Type 0 where
  pub capacity : ℕ
  pub refill_rate : ℕ
  pub tokens : ℤ
  pub last : ℕ

-- `__init__` at the clock reading `now`
unfoldable pub init : ℕ → ℕ → ℕ → InMemoryTokenBucket
init capacity refill_rate now = record {
  capacity = capacity;
  refill_rate = refill_rate;
  tokens = pos capacity;
  last = now;
}

unfoldable pub acquire : ℕ → ℕ → InMemoryTokenBucket → InMemoryTokenBucket × Bool
acquire now tokens b =
    let held = cap_ℤ b.capacity (shift b.tokens (now * b.refill_rate) (b.last * b.refill_rate)) in
    let b' = record b { tokens = held; last = now } in
    if reached tokens held then (record b' { tokens = shift held 0 tokens }, true) else (b', false)

-- `wait_time`, as the fraction `needed / refill_rate`; `one` is the number of units of a token.
unfoldable pub wait_time : ℕ → InMemoryTokenBucket → ℕ × ℕ
wait_time one b = elim b.tokens [
  | pos n ↦ if leb one n then (0, 1) else (one - n, b.refill_rate)
  | negsuc n ↦ (one + suc n, b.refill_rate)
]

-- The hash behind a key: its two fields, and the time at which EXPIRE removes it.
pub record Hash : Type 0 where
  pub tokens : ℕ
  pub last_refill : ℕ
  pub expires_at : ℕ

-- `HMGET`: nothing if the key is not there or has expired.
unfoldable pub hmget : ℕ → Option Hash → Option (ℕ × ℕ)
hmget now none = none
hmget now (some h) = if leb h.expires_at now then none else some (h.tokens, h.last_refill)

-- The script after the read, from `tokens` and `last_refill`. Its `math.max(0, now - last_refill)` is
-- the subtraction of natural numbers.
unfoldable pub lua_body : ℕ → ℕ → ℕ → ℕ → ℕ → ℕ → Hash × ℕ
lua_body capacity refill_rate now requested tokens last_refill =
    let held = min capacity (tokens + (now - last_refill) * refill_rate) in
    if leb requested held
    then (record { tokens = held - requested; last_refill = now; expires_at = now + 3600 }, 1)
    else (record { tokens = held; last_refill = now; expires_at = now + 3600 }, 0)

-- `_LUA_ACQUIRE`; an absent key counts as a full bucket.
unfoldable pub lua_acquire : ℕ → ℕ → ℕ → ℕ → Option Hash → Hash × ℕ
unfolding hmget lua_body
lua_acquire capacity refill_rate now requested stored = elim (hmget now stored) [
  | none ↦ lua_body capacity refill_rate now requested capacity now
  | some held ↦ lua_body capacity refill_rate now requested held.0 held.1
]

-- `DistributedTokenBucket`; `connected` says that `_redis_client` and `_script` are set.
pub record DistributedTokenBucket : Type 0 where
  pub capacity : ℕ
  pub refill_rate : ℕ
  pub fallback : InMemoryTokenBucket
  pub connected : Bool

unfoldable pub distributed_init : ℕ → ℕ → ℕ → DistributedTokenBucket
unfolding init
distributed_init capacity refill_rate now = record {
  capacity = capacity;
  refill_rate = refill_rate;
  fallback = init capacity refill_rate now;
  connected = false;
}

-- Redis, as the client sees it: `connect` imports the client, pings and registers the script, and
-- says whether all of that went well; `script` runs the registered script on capacity, refill rate,
-- time and request, and gives `none` where the call raises.
module _ {S : Type 0} (connect : S → Bool × S) (script : ℕ → ℕ → ℕ → ℕ → S → Option ℕ × S) where
  unfoldable pub get_redis : DistributedTokenBucket → S → (DistributedTokenBucket × Bool) × S
  get_redis d s =
      if d.connected
      then ((d, true), s)
      else let (up, s') = connect s in ((record d { connected = up }, up), s')

  unfoldable pub fall_back : ℕ → ℕ → DistributedTokenBucket → DistributedTokenBucket × Bool
  fall_back now tokens d =
      let (b, granted) = acquire now tokens d.fallback in (record d { fallback = b }, granted)

  -- `monotonic` and `wall` are the readings of the two clocks.
  unfoldable pub distributed_acquire :
      ℕ → ℕ → ℕ → DistributedTokenBucket → S → (DistributedTokenBucket × Bool) × S
  unfolding get_redis fall_back
  distributed_acquire monotonic wall tokens d s =
      let ((d', up), s') = get_redis d s in
      if not up
      then (fall_back monotonic tokens d', s')
      else let (result, s'') = script d'.capacity d'.refill_rate wall tokens s' in
        elim result [
          | none ↦ (fall_back monotonic tokens d', s'')
          | some n ↦ ((d', not (nat_beq n 0)), s'')
        ]

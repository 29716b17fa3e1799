-- ===== src/Utils/RateLimiter/Fallback.antt =====
-- The distributed bucket degrades to the in-process one.
use ligp_v.Prelude.{
  ℕ, ◌≡◌, Bool, true, false, Option, none, some, arith, if◌then◌else◌, nat_beq, not,
}
use ligp_v.Utils.RateLimiter.{
  acquire, Hash, lua_acquire, DistributedTokenBucket, distributed_acquire,
}

-- A Redis server that is up or down for the whole call, with the hash behind the key.
pub record Server : Type 0 where
  pub up : Bool
  pub stored : Option Hash

abbrev pub connect : Server → Bool × Server
connect s = (s.up, s)

abbrev pub script : ℕ → ℕ → ℕ → ℕ → Server → Option ℕ × Server
script capacity refill_rate now requested s =
    if s.up
    then (
      some (lua_acquire capacity refill_rate now requested s.stored).1,
      record s { stored = some (lua_acquire capacity refill_rate now requested s.stored).0 },
    )
    else (none, s)

-- With the server down, whether or not the client was connected before, `acquire` answers as the
-- in-process bucket does, advances that bucket, and leaves the server alone. With the server up it
-- answers as the script does, and leaves the in-process bucket alone.
pub distributed_acquire_lem :
    (monotonic wall tokens : ℕ) (d : DistributedTokenBucket) (stored : Option Hash)
    → ((distributed_acquire connect script monotonic wall tokens d
          (record { up = false; stored = stored })).0.1
        ≡ (acquire monotonic tokens d.fallback).1)
      × ((distributed_acquire connect script monotonic wall tokens d
            (record { up = false; stored = stored })).0.0.fallback
          ≡ (acquire monotonic tokens d.fallback).0)
      × ((distributed_acquire connect script monotonic wall tokens d
            (record { up = false; stored = stored })).1.stored
          ≡ stored)
      × ((distributed_acquire connect script monotonic wall tokens d
            (record { up = true; stored = stored })).0.1
          ≡ not (nat_beq (lua_acquire d.capacity d.refill_rate wall tokens stored).1 0))
      × ((distributed_acquire connect script monotonic wall tokens d
            (record { up = true; stored = stored })).0.0.fallback
          ≡ d.fallback)
      × ((distributed_acquire connect script monotonic wall tokens d
            (record { up = true; stored = stored })).1.stored
          ≡ some (lua_acquire d.capacity d.refill_rate wall tokens stored).0)
unfolding distributed_acquire
distributed_acquire_lem monotonic wall tokens d stored = ground arith

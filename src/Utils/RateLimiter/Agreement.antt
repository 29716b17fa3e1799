-- ===== src/Utils/RateLimiter/Agreement.antt =====
-- The Lua script beside the in-process bucket, within the life of a key and beyond it.
use ligp_v.Prelude.{
  ℕ, ◌+◌, ◌-◌, ◌*◌, ◌≤◌, ◌<◌, ◌≡◌, min, max, Bool, true, false, Option, none, some, arith, leb,
  if◌then◌else◌,
}
use ligp_v.Prelude.Int.{ℤ, pos, negsuc, shift}
use ligp_v.Utils.RateLimiter.{InMemoryTokenBucket, init, acquire, wait_time, Hash, lua_acquire}

-- The in-process bucket with the contents of a hash.
abbrev pub bucket_of : ℕ → ℕ → Hash → InMemoryTokenBucket
bucket_of capacity refill_rate h = record {
  capacity = capacity;
  refill_rate = refill_rate;
  tokens = pos h.tokens;
  last = h.last_refill;
}

abbrev pub reply_of : Bool → ℕ
reply_of true = 1
reply_of false = 0

gain :
    (tokens now last rate : ℕ)
    → last ≤ now
    → tokens + now * rate ≡ tokens + (now - last) * rate + last * rate
gain tokens now last rate h = grind arith

-- Forward in time the refill of the in-process bucket is that of the script.
pub shift_forward :
    (tokens now last rate : ℕ)
    → last ≤ now
    → shift (pos tokens) (now * rate) (last * rate) ≡ pos (tokens + (now - last) * rate)
shift_forward tokens now last rate h = ground (arith, gain tokens now last rate)

late_refill : (now last : ℕ) → max now last - last ≡ now - last
late_refill now last = ground arith

-- On a key that has not expired the script decides as the in-process bucket with its contents does at
-- the later one of the present and the last refill, leaves as many tokens, and dates them at the
-- present; so a clock that goes back takes nothing. On an absent key it decides as a bucket built at
-- that moment does, and leaves the same contents.
pub lua_acquire-acquire :
    (capacity refill_rate now requested : ℕ) (h : Hash)
    → now < h.expires_at
    → (pos (lua_acquire capacity refill_rate now requested (some h)).0.tokens
        ≡ (acquire (max now h.last_refill) requested (bucket_of capacity refill_rate h)).0.tokens)
      × ((lua_acquire capacity refill_rate now requested (some h)).0.last_refill ≡ now)
      × ((lua_acquire capacity refill_rate now requested (some h)).1
          ≡ reply_of
              (acquire (max now h.last_refill) requested (bucket_of capacity refill_rate h)).1)
      × (bucket_of capacity refill_rate (lua_acquire capacity refill_rate now requested none).0
          ≡ (acquire now requested (init capacity refill_rate now)).0)
      × ((lua_acquire capacity refill_rate now requested none).1
          ≡ reply_of (acquire now requested (init capacity refill_rate now)).1)
unfolding lua_acquire acquire init
lua_acquire-acquire capacity refill_rate now requested h p = ground (
  arith,
  shift_forward h.tokens (max now h.last_refill) h.last_refill refill_rate,
  late_refill now h.last_refill,
  shift_forward capacity now now refill_rate,
)

lua_acquire_dates :
    (capacity refill_rate now requested : ℕ) (stored : Option Hash)
    → ((lua_acquire capacity refill_rate now requested stored).0.last_refill ≡ now)
      × ((lua_acquire capacity refill_rate now requested stored).0.expires_at ≡ now + 3600)
unfolding lua_acquire
lua_acquire_dates capacity refill_rate now requested none = ground arith
lua_acquire_dates capacity refill_rate now requested (some h) = ground arith

-- The reply to a request on a hash.
reply_on :
    (capacity refill_rate now requested : ℕ) (h : Hash)
    → (lua_acquire capacity refill_rate now requested (some h)).1
      ≡ reply_of (
          leb requested (
            if leb h.expires_at now
            then capacity
            else min capacity (h.tokens + (now - h.last_refill) * refill_rate)))
unfolding lua_acquire
reply_on capacity refill_rate now requested h = ground arith

after :
    (now idle : ℕ) → ((now + idle) - now ≡ idle) × (leb (now + 3600) (now + idle) ≡ leb 3600 idle)
after now idle = ground arith

-- Of two calls of the script, the second `idle` seconds after the first, the second is granted exactly
-- if it asks for no more than this: within an hour, what the first one left with what the idle time
-- has refilled, up to the capacity; from an hour on the whole capacity, whatever the first one left.
pub lua_acquire-lua_acquire :
    (capacity refill_rate now first second idle : ℕ) (stored : Option Hash)
    → let h = (lua_acquire capacity refill_rate now first stored).0 in
      (lua_acquire capacity refill_rate (now + idle) second (some h)).1
      ≡ reply_of (
          leb second
            (if leb 3600 idle then capacity else min capacity (h.tokens + idle * refill_rate)))
lua_acquire-lua_acquire capacity refill_rate now first second idle stored =
    let h = (lua_acquire capacity refill_rate now first stored).0 in
    let (refilled, expires) = lua_acquire_dates capacity refill_rate now first stored in
    let (gone, alive) = after now idle in
    ground
      (arith, reply_on capacity refill_rate (now + idle) second h, refilled, expires, gone, alive)

grow : (wait gone rate : ℕ) → wait ≤ gone → wait * rate ≤ gone * rate
grow wait gone rate h = grind arith

spread : (now last wait rate : ℕ) → last + wait ≤ now → last * rate + wait * rate ≤ now * rate
spread now last wait rate h = omega (arith, grow (last + wait) now rate h)

waited :
    (one wait now cap rate last : ℕ) (tokens : ℤ)
    → one ≤ cap
    → (wait_time one
        (record { capacity = cap; refill_rate = rate; tokens = tokens; last = last })).0
      ≤ wait
        * (wait_time one
            (record { capacity = cap; refill_rate = rate; tokens = tokens; last = last })).1
    → last + wait ≤ now
    → (acquire now one
        (record { capacity = cap; refill_rate = rate; tokens = tokens; last = last })).1
      ≡ true
unfolding acquire wait_time
waited one wait now cap rate last (pos n) h w p = ground (arith, spread now last wait rate p)
waited one wait now cap rate last (negsuc n) h w p = ground (arith, spread now last wait rate p)

-- After the time that `wait_time` announces, with `refill_rate` units gained in each unit of it, a
-- request for one token is granted, if the bucket is large enough to hold one.
pub acquire_after_wait :
    (one wait now : ℕ) (b : InMemoryTokenBucket)
    → one ≤ b.capacity
    → (wait_time one b).0 ≤ wait * (wait_time one b).1
    → b.last + wait ≤ now
    → (acquire now one b).1 ≡ true
acquire_after_wait one wait now b h w p =
    waited one wait now b.capacity b.refill_rate b.last b.tokens h w p

-- ===== src/Ingestion/Bucket/Quota.antt =====
-- The bucket keeps to its quota.
use ligp_v.Prelude.{
  ℕ, ◌+◌, ◌*◌, ◌≤◌, ◌<◌, ◌≡◌, Bool, true, false, List, [], ◌∷◌, arith, if◌then◌else◌,
}
use native.Mathlib.Nat.{le_of_mul-le-mul_right}
use ligp_v.Ingestion.Bucket.{TokenBucket, built, init, refill, consume, available}

-- The bucket never holds more than its capacity.
abbrev pub IsWithin : TokenBucket → Type 0
IsWithin b = b.tokens ≤ b.capacity * b.window_sec

-- Calls of `consume`: each waits some seconds after the one before and asks for some tokens. The
-- result is the bucket and the number of tokens granted.
unfoldable pub serve : TokenBucket → List (ℕ × ℕ) → TokenBucket × ℕ
serve b [] = (b, 0)
serve b ((wait, tokens) ∷ calls) =
    let (b', granted) = consume (b.last + wait) tokens b in
    let (b'', total) = serve b' calls in (b'', if granted then tokens + total else total)

-- The seconds that a sequence of calls takes.
abbrev pub elapsed : List (ℕ × ℕ) → ℕ
elapsed [] = 0
elapsed ((wait, tokens) ∷ calls) = wait + elapsed calls

abbrev pub charge : Bool → ℕ → ℕ
charge true tokens = tokens
charge false tokens = 0

consume_bound :
    (b : TokenBucket) (wait tokens : ℕ)
    → ((consume (b.last + wait) tokens b).0.tokens
          + charge (consume (b.last + wait) tokens b).1 tokens * b.window_sec
        ≤ b.tokens + wait * b.capacity)
      × ((consume (b.last + wait) tokens b).0.capacity ≡ b.capacity)
      × ((consume (b.last + wait) tokens b).0.window_sec ≡ b.window_sec)
unfolding consume
consume_bound b wait tokens = ground arith

-- `consume` after any wait never lets the bucket overflow, and what it leaves with what it grants
-- is exactly what the refill had put there.
pub consume-IsWithin :
    (b : TokenBucket) (now tokens : ℕ)
    → IsWithin (consume now tokens b).0
      × ((consume now tokens b).0.tokens + charge (consume now tokens b).1 tokens * b.window_sec
          ≡ (refill now b).tokens)
unfolding consume
consume-IsWithin b now tokens = ground arith

-- A step of the induction below, over plain numbers.
add_call :
    (granted : Bool) (left tokens total waits rate window start wait : ℕ)
    → left + charge granted tokens * window ≤ start + wait * rate
    → total * window ≤ left + waits * rate
    → (if granted then tokens + total else total) * window ≤ start + (wait + waits) * rate
add_call true left tokens total waits rate window start wait h k = grind arith
add_call false left tokens total waits rate window start wait h k = grind arith

pub serve_quota :
    (b : TokenBucket) (calls : List (ℕ × ℕ))
    → (serve b calls).1 * b.window_sec ≤ b.tokens + elapsed calls * b.capacity
unfolding serve
serve_quota b [] = omega arith
serve_quota b ((wait, tokens) ∷ calls) =
    let (b', granted) = consume (b.last + wait) tokens b in
    let (bound, same_capacity, same_window) = consume_bound b wait tokens in
    let rest : (serve b' calls).1 * b.window_sec ≤ b'.tokens + elapsed calls * b.capacity =
      simp (same_capacity, same_window) at (serve_quota b' calls) in
    add_call granted b'.tokens tokens (serve b' calls).1 (elapsed calls) b.capacity b.window_sec
      b.tokens wait bound rest

half_quota :
    (granted waits capacity window : ℕ)
    → 0 < window
    → granted * window ≤ capacity * window + waits * capacity
    → waits ≤ window
    → granted ≤ capacity + capacity
half_quota granted waits capacity window p h k =
    let bound : granted * window ≤ (capacity + capacity) * window = grind arith in
    le_of_mul-le-mul_right bound p

-- A bucket built for `capacity` tokens over `window_sec` seconds grants, over any calls that take
-- at most that window, no more than twice its capacity: the initial burst and one refill.
pub init-quota :
    (capacity window_sec now : ℕ) (b : TokenBucket) (calls : List (ℕ × ℕ))
    → init capacity window_sec now ≡ built b
    → elapsed calls ≤ window_sec
    → (serve b calls).1 ≤ capacity + capacity
unfolding init
init-quota capacity window_sec now b calls e h =
    half_quota (serve b calls).1 (elapsed calls) capacity b.window_sec (ground arith)
      (ground (arith, serve_quota b calls)) (ground arith)

-- A bucket that has been left alone for the whole window is full again, and grants a request for
-- anything up to its capacity.
pub consume_after_window :
    (b : TokenBucket) (now tokens : ℕ)
    → b.last + b.window_sec ≤ now
    → tokens ≤ b.capacity
    → ((available now b).1 ≡ b.capacity * b.window_sec) × ((consume now tokens b).1 ≡ true)
unfolding consume available
consume_after_window b now tokens h k = grind arith

-- ===== src/Utils/Retry/Delay.antt =====
-- The backoff delay is capped, grows with the attempts, and follows its strategy.
use ligp_v.Prelude.{
  ℕ, zero, suc, ◌+◌, ◌-◌, ◌*◌, ◌^◌, ◌≤◌, ◌≡◌, min, refl, Bool, true, false, arith, String, ◌==◌,
  Bool-cases, inl, inr, string_eq, ap, ◌∙◌, ◌≢◌, eq_iff,
}
use native.Mathlib.Nat.{zero-add, add-zero, pow-suc}
use ligp_v.Utils.Retry.{fibonacci_loop, raw_delay, compute_delay}

-- The Fibonacci numbers by their defining equations, fib 1 = fib 2 = 1.
abbrev pub fib : ℕ → ℕ
fib zero = 0
fib (suc zero) = 1
fib (suc (suc n)) = fib n + fib (suc n)

fibonacci_loop-fib :
    (n k : ℕ) → fibonacci_loop n (fib (suc k)) (fib (suc (suc k))) ≡ fib (suc (n + k))
unfolding fibonacci_loop
fibonacci_loop-fib zero k = rw zero-add
fibonacci_loop-fib (suc n) k =
    let shift : suc (n + suc k) ≡ suc (suc n + k) = omega arith in
    fibonacci_loop-fib n (suc k) ∙ ap fib shift

fibonacci_loop_lem : (n : ℕ) → fibonacci_loop n 1 1 ≡ fib (suc n)
fibonacci_loop_lem n = fibonacci_loop-fib n 0 ∙ ap (λ (k : ℕ). fib (suc k)) (add-zero n)

fib_mono : (n : ℕ) → fib n ≤ fib (suc n)
fib_mono zero = omega arith
fib_mono (suc n) = omega arith

pow_mono : (n : ℕ) → 2 ^ n ≤ 2 ^ suc n
pow_mono n = rw pow-suc (omega arith)

sub_one : (n : ℕ) → suc n - 1 ≡ n
sub_one n = omega arith

mul_mono : (base m n : ℕ) → m ≤ n → base * m ≤ base * n
mul_mono base m n h = grind arith

-- The uncapped delay follows the strategy: `base * attempt`, `base` times the Fibonacci number of
-- the attempt, or, for every other name, `base` doubled with each attempt after the first.
pub raw_delay_lem :
    (base n : ℕ) (other : String)
    → other ≢ "linear"
    → other ≢ "fibonacci"
    → (raw_delay "linear" base (suc n) ≡ base * suc n)
      × (raw_delay "fibonacci" base (suc n) ≡ base * fib (suc n))
      × (raw_delay other base (suc n) ≡ base * 2 ^ n)
unfolding raw_delay
raw_delay_lem base n other p q = (
  refl,
  rw (sub_one n, fibonacci_loop_lem),
  ground (arith, eq_iff other "linear", eq_iff other "fibonacci"),
)

fibonacci_mono : (base n : ℕ) → base * fibonacci_loop n 1 1 ≤ base * fibonacci_loop (suc n) 1 1
fibonacci_mono base n =
    rw (fibonacci_loop_lem n, fibonacci_loop_lem (suc n)) (mul_mono base _ _ (fib_mono (suc n)))

raw_delay_mono :
    (strategy : String) (base n : ℕ)
    → raw_delay strategy base (suc n) ≤ raw_delay strategy base (suc (suc n))
unfolding raw_delay
raw_delay_mono strategy base n = elim (Bool-cases (strategy == "linear")) [
  | inl p ↦ rw p (mul_mono base _ _ (omega arith))
  | inr p ↦ rw p (elim (Bool-cases (strategy == "fibonacci")) [
    | inl q ↦ rw (q, sub_one n, sub_one (suc n)) (fibonacci_mono base n)
    | inr q ↦ rw (q, sub_one n, sub_one (suc n)) (mul_mono base _ _ (pow_mono n))
  ])
]

-- An attempt from 1 on is not corrected.
compute_delay_plain :
    (uniform : ℕ → ℕ) (n : ℕ) (strategy : String) (base max_delay : ℕ)
    → compute_delay uniform (suc n) strategy base max_delay false
      ≡ min (raw_delay strategy base (suc n)) max_delay
unfolding compute_delay
compute_delay_plain uniform n strategy base max_delay = ground arith

compute_delay-zero :
    (uniform : ℕ → ℕ) (strategy : String) (base max_delay : ℕ)
    → compute_delay uniform 0 strategy base max_delay false
      ≡ min (raw_delay strategy base 1) max_delay
unfolding compute_delay
compute_delay-zero uniform strategy base max_delay = refl

-- Without jitter the delay never shrinks from one attempt to the next, whatever the strategy.
pub compute_delay_mono :
    (uniform : ℕ → ℕ) (n : ℕ) (strategy : String) (base max_delay : ℕ)
    → compute_delay uniform n strategy base max_delay false
      ≤ compute_delay uniform (suc n) strategy base max_delay false
compute_delay_mono uniform zero strategy base max_delay = omega (
  arith,
  compute_delay-zero uniform strategy base max_delay,
  compute_delay_plain uniform 0 strategy base max_delay,
)
compute_delay_mono uniform (suc n) strategy base max_delay = omega (
  arith,
  compute_delay_plain uniform n strategy base max_delay,
  compute_delay_plain uniform (suc n) strategy base max_delay,
  raw_delay_mono strategy base n,
)

-- A draw of `uniform` lies between 0 and its argument. Then no delay passes `max_delay`, with
-- jitter or without.
pub compute_delay-le :
    (uniform : ℕ → ℕ)
    → ((d : ℕ) → uniform d ≤ d)
    → (attempt : ℕ) (strategy : String) (base max_delay : ℕ) (jitter : Bool)
    → compute_delay uniform attempt strategy base max_delay jitter ≤ max_delay
unfolding compute_delay
compute_delay-le uniform h attempt strategy base max_delay true =
    ground (arith, h (compute_delay uniform attempt strategy base max_delay false))
compute_delay-le uniform h attempt strategy base max_delay false = ground arith

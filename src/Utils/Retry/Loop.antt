-- ===== src/Utils/Retry/Loop.antt =====
-- What the retry wrapper returns, how often it calls, and how long it sleeps. The function is given
-- by the outcomes of its successive calls, and the state records the calls made and the sleeps.
use ligp_v.Prelude.{
  ℕ, zero, suc, ◌+◌, ◌<◌, ◌≡◌, ◌∙◌, Option, none, some, List, [], ◌∷◌, ◌++◌, arith,
}
use mathlib.Core.List.{append-nil, append_assoc}
use native.Mathlib.Nat.{add-zero, zero-add}
use ligp_v.Utils.Retry.{Outcome, returned, caught, Result, value, raised, retry_loop, wrapper}

pub record Trace : Type 0 where
  pub calls : ℕ
  pub sleeps : List ℕ

module _ {A E : Type 0} (script : ℕ → Outcome A E) (delay : ℕ → ℕ) where
  -- A call of the function: the next outcome of the script.
  abbrev pub scripted : Trace → Outcome A E × Trace
  scripted t = (script t.calls, record t { calls = t.calls + 1 })

  abbrev pub nap : ℕ → Trace → Trace
  nap d t = record t { sleeps = t.sleeps ++ d ∷ [] }

  -- The delays before attempts `first + 1`, `first + 2` and so on, `n` of them.
  abbrev pub delays : ℕ → ℕ → List ℕ
  delays first zero = []
  delays first (suc n) = delay first ∷ delays (first + 1) n

  abbrev run : ℕ → ℕ → Option E → Trace → Result A E × Trace
  run = retry_loop scripted nap delay

  -- One failed attempt with rounds left: the loop sleeps and goes on.
  step_caught :
      (rounds attempt : ℕ) (last : Option E) (t : Trace) (e : E)
      → script t.calls ≡ caught e
      → run (suc (suc rounds)) attempt last t
        ≡ run
            (suc rounds)
            (attempt + 1)
            (some e)
            (record { calls = t.calls + 1; sleeps = t.sleeps ++ delay attempt ∷ [] })
  unfolding retry_loop
  step_caught rounds attempt last t e h = rw h

  step_last :
      (attempt : ℕ) (last : Option E) (t : Trace) (e : E)
      → script t.calls ≡ caught e
      → run 1 attempt last t ≡ (raised e, record t { calls = t.calls + 1 })
  unfolding retry_loop
  step_last attempt last t e h = rw h

  step_returned :
      (rounds attempt : ℕ) (last : Option E) (t : Trace) (a : A)
      → script t.calls ≡ returned a
      → run (suc rounds) attempt last t ≡ (value a, record t { calls = t.calls + 1 })
  unfolding retry_loop
  step_returned rounds attempt last t a h = rw h

  -- `k` attempts from the `c`-th call on end in an exception that the wrapper catches.
  abbrev pub AllCaught : ℕ → ℕ → Type 0
  AllCaught c zero = Unit
  AllCaught c (suc k) = ((e : E) × (script c ≡ caught e)) × AllCaught (c + 1) k

  loop_returned :
      (k rounds attempt : ℕ) (last : Option E) (c : ℕ) (slept : List ℕ) (a : A)
      → AllCaught c k
      → script (c + k) ≡ returned a
      → k < rounds
      → run rounds attempt last (record { calls = c; sleeps = slept })
        ≡ (value a, record { calls = c + k + 1; sleeps = slept ++ delays attempt k })
  loop_returned k zero attempt last c slept a hs h lt = absurd (omega arith)
  loop_returned zero (suc rounds) attempt last c slept a hs h lt =
      rw (append-nil, add-zero)
        (step_returned rounds attempt last (record { calls = c; sleeps = slept }) a
          (rw add-zero at h))
  loop_returned (suc k) (suc zero) attempt last c slept a hs h lt = absurd (omega arith)
  loop_returned (suc k) (suc (suc rounds)) attempt last c slept a ((e, p), hs) h lt =
      let next : c + suc k ≡ c + 1 + k = omega arith in
      step_caught rounds attempt last (record { calls = c; sleeps = slept }) e p
      ∙ loop_returned k (suc rounds) (attempt + 1) (some e) (c + 1) (slept ++ delay attempt ∷ []) a
          hs (rw next at h) (omega arith)
      ∙ rw (append_assoc, next)

  loop_raised :
      (k attempt : ℕ) (last : Option E) (c : ℕ) (slept : List ℕ) (e : E)
      → AllCaught c k
      → script (c + k) ≡ caught e
      → run (suc k) attempt last (record { calls = c; sleeps = slept })
        ≡ (raised e, record { calls = c + k + 1; sleeps = slept ++ delays attempt k })
  loop_raised zero attempt last c slept e hs h =
      rw (append-nil, add-zero)
        (step_last attempt last (record { calls = c; sleeps = slept }) e (rw add-zero at h))
  loop_raised (suc k) attempt last c slept e ((e', p), hs) h =
      let next : c + suc k ≡ c + 1 + k = omega arith in
      step_caught k attempt last (record { calls = c; sleeps = slept }) e' p
      ∙ loop_raised k (attempt + 1) (some e') (c + 1) (slept ++ delay attempt ∷ []) e hs
          (rw next at h)
      ∙ rw (append_assoc, next)

  abbrev pub fresh : Trace
  fresh = record { calls = 0; sleeps = [] }

  -- If the first `k` calls fail with exceptions that are retried, call `k + 1` returns and
  -- `max_attempts` allows that many, the wrapper returns its value after exactly `k + 1` calls and
  -- has slept the delays of attempts 1 to `k`, in this order.
  pub wrapper-returned :
      (k max_attempts : ℕ) (a : A)
      → AllCaught 0 k
      → script k ≡ returned a
      → k < max_attempts
      → wrapper scripted nap delay max_attempts fresh
        ≡ (value a, record { calls = k + 1; sleeps = delays 1 k })
  unfolding wrapper
  wrapper-returned k max_attempts a hs h lt =
      rw (zero-add k) at (loop_returned k max_attempts 1 none 0 [] a hs (rw (zero-add k) h) lt)

  -- If every one of the `k + 1` attempts fails with an exception that is retried, the wrapper raises
  -- the last of them after exactly `k + 1` calls, and does not sleep after the last.
  pub wrapper-raised :
      (k : ℕ) (e : E)
      → AllCaught 0 k
      → script k ≡ caught e
      → wrapper scripted nap delay (suc k) fresh
        ≡ (raised e, record { calls = k + 1; sleeps = delays 1 k })
  unfolding wrapper
  wrapper-raised k e hs h = rw (zero-add k) at (loop_raised k 1 none 0 [] e hs (rw (zero-add k) h))

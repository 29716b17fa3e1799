-- ===== src/Database/Adapter/Loans.antt =====
-- The connections that are out, counted over the calls.
use ligp_v.Prelude.{ℕ, ◌+◌, ◌≡◌, List, [], ◌∷◌, ◌++◌, arith}
use ligp_v.Database.Adapter.{Call, got, put_back, got}

-- Connections taken from the pool, and given back.
abbrev pub taken : Call → ℕ
taken (got c) = 1
taken _ = 0

abbrev pub given : Call → ℕ
given (put_back c) = 1
given _ = 0

abbrev pub count : (Call → ℕ) → List Call → ℕ
count f [] = 0
count f (k ∷ ks) = f k + count f ks

pub count-append : (f : Call → ℕ) (xs ys : List Call) → count f (xs ++ ys) ≡ count f xs + count f ys
count-append f [] ys = omega arith
count-append f (k ∷ xs) ys = omega (arith, count-append f xs ys)

-- How many connections are out.
abbrev pub Owes : ℕ → List Call → Type 0
Owes n calls = count taken calls ≡ count given calls + n

pub Owes-append :
    (n m : ℕ) (xs ys : List Call)
    → Owes n xs
    → count taken ys + n ≡ count given ys + m
    → Owes m (xs ++ ys)
Owes-append n m xs ys h k = omega (arith, count-append taken xs ys, count-append given xs ys)

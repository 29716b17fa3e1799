-- ===== src/Prelude/Sorting.antt =====
-- `sorted` and `list.sort`: each element in turn goes before the first that it must stand before.
use mathlib.Core.Logic.{inl, inr}
use mathlib.Core.Path.{◌≡◌, refl}
use mathlib.Core.Bool.{Bool, true, false}
use mathlib.Core.List.{List, [], ◌∷◌}
use Prim.Native.Nat.{ℕ, zero, suc, ◌+◌}
use native.Mathlib.Omega.{arith}
use ligp_v.Prelude.Tests.{if◌then◌else◌, Bool-cases}
use ligp_v.Prelude.Lists.{length, All, take, drop}

module _ {A : Type 0} (before : A → A → Bool) where
  abbrev pub insert_by : A → List A → List A
  insert_by x [] = x ∷ []
  insert_by x (y ∷ ys) = let rest = insert_by x ys in if before x y then x ∷ y ∷ ys else y ∷ rest

  abbrev pub sort_onto : List A → List A → List A
  sort_onto done [] = done
  sort_onto done (x ∷ xs) = sort_onto (insert_by x done) xs

  abbrev pub sort_by : List A → List A
  sort_by xs = sort_onto [] xs

-- A sum over the elements.
abbrev pub sum_of {ℓ} : {A : Type ℓ} → (A → ℕ) → List A → ℕ
sum_of f [] = 0
sum_of f (x ∷ xs) = f x + sum_of f xs

module _ {A : Type 0} (before : A → A → Bool) where
  sum-insert_by :
      (f : A → ℕ) (x : A) (xs : List A) → sum_of f (insert_by before x xs) ≡ f x + sum_of f xs
  sum-insert_by f x [] = omega arith
  sum-insert_by f x (y ∷ ys) = elim (Bool-cases (before x y)) [
    | inl first ↦ rw first (omega arith)
    | inr later ↦ rw later (omega (arith, sum-insert_by f x ys))
  ]

  sum-sort_onto :
      (f : A → ℕ) (done xs : List A)
      → sum_of f (sort_onto before done xs) ≡ sum_of f done + sum_of f xs
  sum-sort_onto f done [] = omega arith
  sum-sort_onto f done (x ∷ xs) =
      omega (arith, sum-sort_onto f (insert_by before x done) xs, sum-insert_by f x done)

  -- Sorting keeps every sum.
  pub sum-sort_by : (f : A → ℕ) (xs : List A) → sum_of f (sort_by before xs) ≡ sum_of f xs
  sum-sort_by f xs = omega (arith, sum-sort_onto f [] xs)

-- No element stands before one that precedes it.
module _ {A : Type 0} (before : A → A → Bool) where
  abbrev pub IsSorted : List A → Type 0
  IsSorted [] = Unit
  IsSorted (x ∷ xs) = All (λ y. before y x ≡ false) xs × IsSorted xs

  module _ (asym : (x y : A) → before x y ≡ true → before y x ≡ false)
      (trans : (x y z : A) → before y x ≡ false → before z y ≡ false → before z x ≡ false) where
    All-weaken :
        (x y : A) (xs : List A)
        → before y x ≡ false
        → All (λ z. before z y ≡ false) xs
        → All (λ z. before z x ≡ false) xs
    All-weaken x y [] h a = tt
    All-weaken x y (z ∷ zs) h (p, a) = (trans x y z h p, All-weaken x y zs h a)

    All-insert_by :
        (x y : A) (xs : List A)
        → before x y ≡ false
        → All (λ z. before z y ≡ false) xs
        → All (λ z. before z y ≡ false) (insert_by before x xs)
    All-insert_by x y [] h a = (h, tt)
    All-insert_by x y (z ∷ zs) h (p, a) = elim (Bool-cases (before x z)) [
      | inl first ↦ rw first (h, (p, a))
      | inr later ↦ rw later (p, All-insert_by x y zs h a)
    ]

    insert_by-IsSorted : (x : A) (xs : List A) → IsSorted xs → IsSorted (insert_by before x xs)
    insert_by-IsSorted x [] s = (tt, tt)
    insert_by-IsSorted x (y ∷ ys) (a, s) = elim (Bool-cases (before x y)) [
      | inl first ↦ rw first ((asym x y first, All-weaken x y ys (asym x y first) a), (a, s))
      | inr later ↦ rw later (All-insert_by x y ys later a, insert_by-IsSorted x ys s)
    ]

    sort_onto-IsSorted : (done xs : List A) → IsSorted done → IsSorted (sort_onto before done xs)
    sort_onto-IsSorted done [] s = s
    sort_onto-IsSorted done (x ∷ xs) s =
        sort_onto-IsSorted (insert_by before x done) xs (insert_by-IsSorted x done s)

    pub sort_by-IsSorted : (xs : List A) → IsSorted (sort_by before xs)
    sort_by-IsSorted xs = sort_onto-IsSorted [] xs tt

  -- What is cut off a sorted list stands before nothing that is kept.
  All-take :
      (x : A) (n : ℕ) (xs : List A)
      → All (λ y. before y x ≡ false) xs
      → All (λ y. before y x ≡ false) (take n xs)
  All-take x zero xs a = tt
  All-take x (suc n) [] a = tt
  All-take x (suc n) (y ∷ ys) (p, a) = (p, All-take x n ys a)

  pub take-IsSorted : (n : ℕ) (xs : List A) → IsSorted xs → IsSorted (take n xs)
  take-IsSorted zero xs s = tt
  take-IsSorted (suc n) [] s = tt
  take-IsSorted (suc n) (x ∷ xs) (a, s) = (All-take x n xs a, take-IsSorted n xs s)

  All-drop :
      (x : A) (n : ℕ) (xs : List A)
      → All (λ y. before y x ≡ false) xs
      → All (λ y. before y x ≡ false) (drop n xs)
  All-drop x zero xs a = a
  All-drop x (suc n) [] a = tt
  All-drop x (suc n) (y ∷ ys) (p, a) = All-drop x n ys a

  pub take-drop :
      (n : ℕ) (xs : List A)
      → IsSorted xs
      → All (λ x. All (λ y. before y x ≡ false) (drop n xs)) (take n xs)
  take-drop zero xs s = tt
  take-drop (suc n) [] s = tt
  take-drop (suc n) (x ∷ xs) (a, s) = (All-drop x n xs a, take-drop n xs s)

pub sum-take-drop :
    {A : Type 0} (f : A → ℕ) (n : ℕ) (xs : List A)
    → sum_of f (take n xs) + sum_of f (drop n xs) ≡ sum_of f xs
sum-take-drop f zero xs = omega arith
sum-take-drop f (suc n) [] = omega arith
sum-take-drop f (suc n) (x ∷ xs) = omega (arith, sum-take-drop f n xs)

sum_ones : {A : Type 0} (xs : List A) → sum_of (λ x. 1) xs ≡ length xs
sum_ones [] = refl
sum_ones (x ∷ xs) = omega (arith, sum_ones xs)

pub length-sort_by :
    {A : Type 0} (before : A → A → Bool) (xs : List A) → length (sort_by before xs) ≡ length xs
length-sort_by before xs =
    omega (arith, sum_ones xs, sum_ones (sort_by before xs), sum-sort_by before (λ x. 1) xs)

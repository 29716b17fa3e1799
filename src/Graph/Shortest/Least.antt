-- ===== src/Graph/Shortest/Least.antt =====
-- What is taken from the heap.
use mathlib.Core.List.{Memᴰ}
use mathlib.Core.List.Memᴰ
use ligp_v.Prelude.{
  suc, ◌≡◌, ◌⊎◌, refl, true, false, List, [], ◌∷◌, arith, inl, inr, Bool-cases, length, ap,
}
use ligp_v.Graph.Shortest.{Costs, Entry, entry_less, heappop}
use ligp_v.Graph.Shortest.Routes.{NoMore, NoMore-refl, NoMore-trans, less-NoMore}

pub parts : {A : Type 0} {x y : A} {xs : List A} → Memᴰ y (x ∷ xs) → (y ≡ x) ⊎ Memᴰ y xs
parts (Memᴰ.head same) = inl same
parts (Memᴰ.tail m) = inr m

module _ {C : Type 0} ⦃k : Costs C⦄ where
  -- The least entry and the others are what the heap held.
  pub record IsLeast (xs : List (Entry C)) (r : Entry C × List (Entry C)) : Type 0 where
    pub first : Memᴰ r.0 xs
    pub kept : (y : Entry C) → Memᴰ y r.1 → Memᴰ y xs
    pub split : (y : Entry C) → Memᴰ y xs → (y ≡ r.0) ⊎ Memᴰ y r.1
    pub least : (y : Entry C) → Memᴰ y xs → NoMore r.0.cost y.cost
    pub size : suc (length r.1) ≡ length xs

  ordered : (x y : Entry C) → entry_less x y ≡ true → NoMore x.cost y.cost
  unfolding entry_less
  ordered x y h = ground (arith, less-NoMore x.cost y.cost)

  unordered : (x y : Entry C) → entry_less x y ≡ false → NoMore y.cost x.cost
  unfolding entry_less
  unordered x y h = ground arith

  module _ (x : Entry C) (xs : List (Entry C)) (r : Entry C × List (Entry C))
      (rest : IsLeast xs r) where
    take_rest : entry_less r.0 x ≡ true → IsLeast (x ∷ xs) (r.0, x ∷ r.1)
    take_rest h = record {
      first = Memᴰ.tail rest.first;
      kept = λ y m. elim (parts m) [
        | inl same ↦ Memᴰ.head same
        | inr old ↦ Memᴰ.tail (rest.kept y old)
      ];
      split = λ y m. elim (parts m) [
        | inl same ↦ inr (Memᴰ.head same)
        | inr old ↦ elim (rest.split y old) [
          | inl same ↦ inl same
          | inr later ↦ inr (Memᴰ.tail later)
        ]
      ];
      least = λ y m. elim (parts m) [
        | inl same ↦ rw same (ordered r.0 x h)
        | inr old ↦ rest.least y old
      ];
      size = ap suc rest.size;
    }

    take_head : entry_less r.0 x ≡ false → IsLeast (x ∷ xs) (x, r.0 ∷ r.1)
    take_head h = record {
      first = Memᴰ.head refl;
      kept = λ y m. elim (parts m) [
        | inl same ↦ Memᴰ.tail (rw same rest.first)
        | inr old ↦ Memᴰ.tail (rest.kept y old)
      ];
      split = λ y m. elim (parts m) [
        | inl same ↦ inl same
        | inr old ↦ elim (rest.split y old) [
          | inl same ↦ inr (Memᴰ.head same)
          | inr later ↦ inr (Memᴰ.tail later)
        ]
      ];
      least = λ y m. elim (parts m) [
        | inl same ↦ rw same (NoMore-refl x.cost)
        | inr old ↦ NoMore-trans x.cost r.0.cost y.cost (unordered r.0 x h) (rest.least y old)
      ];
      size = ap suc rest.size;
    }

  pub heappop_lem : (x : Entry C) (xs : List (Entry C)) → IsLeast (x ∷ xs) (heappop x xs)
  unfolding heappop
  heappop_lem x [] = record {
    first = Memᴰ.head refl;
    kept = λ y m. Memᴰ.tail m;
    split = λ y m. parts m;
    least = λ y m. elim (parts m) [
      | inl same ↦ rw same (NoMore-refl x.cost)
      | inr none_left ↦ absurd (Memᴰ.not-nil none_left)
    ];
    size = refl;
  }
  heappop_lem x (y ∷ ys) = elim (Bool-cases (entry_less (heappop y ys).0 x)) [
    | inl h ↦ rw h (take_rest x (y ∷ ys) (heappop y ys) (heappop_lem y ys) h)
    | inr h ↦ rw h (take_head x (y ∷ ys) (heappop y ys) (heappop_lem y ys) h)
  ]

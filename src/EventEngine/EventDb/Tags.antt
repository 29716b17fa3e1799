-- ===== src/EventEngine/EventDb/Tags.antt =====
-- What sorting keeps, and what a query finds.
use mathlib.Core.List.{Memᴰ}
use ligp_v.Prelude.{
  ◌≡◌, ◌||◌, refl, ap, sym, ◌∙◌, Bool, true, some, List, [], ◌∷◌, arith, String, contains,
  string_eq, ◌==◌, Bool-cases, inl, inr,
}
use ligp_v.Dict.{Dict, get, values}
use ligp_v.EventEngine.EventDb.{Codec, Row, insert_tag, sorted, from_row, rows_where}
use ligp_v.Graph.Shortest.Least.{parts}

contains-insert_tag :
    (x : String) (ys : List String) (t : String)
    → contains (insert_tag x ys) t ≡ (x == t || contains ys t)
unfolding insert_tag
contains-insert_tag x [] t = refl
contains-insert_tag x (y ∷ ys) t = ground (arith, contains-insert_tag x ys t)

pub contains-sorted : (xs : List String) (t : String) → contains (sorted xs) t ≡ contains xs t
unfolding sorted
contains-sorted [] t = refl
contains-sorted (x ∷ xs) t =
    contains-insert_tag x (sorted xs) t ∙ ap (λ b. x == t || b) (contains-sorted xs t)

pub values-get :
    {V : Type 0} (d : Dict String V) (k : String) (v : V) → get k d ≡ some v → Memᴰ v (values d)
unfolding get
values-get [] k v h = absurd (ground arith)
values-get ((j, x) ∷ d) k v h = elim (Bool-cases (j == k)) [
  | inl same ↦ Memᴰ.head (ground arith)
  | inr other ↦ Memᴰ.tail (values-get d k v (ground arith))
]

module _ {D J W : Type 0} (c : Codec D J W) (test : Row J W → Bool) where
  pub rows_where-keeps :
      (rows : List (Row J W)) (row : Row J W)
      → Memᴰ row rows
      → test row ≡ true
      → Memᴰ (from_row c row) (rows_where c test rows)
  unfolding rows_where
  rows_where-keeps [] row m h = elim m [ ]
  rows_where-keeps (x ∷ rows) row m h = elim (parts m) [
    | inl same ↦ rw (same, (ap test (sym same) ∙ h)) (Memᴰ.head refl)
    | inr later ↦ elim (Bool-cases (test x)) [
      | inl hit ↦ rw hit (Memᴰ.tail (rows_where-keeps rows row later h))
      | inr miss ↦ rw miss (rows_where-keeps rows row later h)
    ]
  ]

  pub rows_where-only :
      (rows : List (Row J W)) (y : Row (List String) W)
      → Memᴰ y (rows_where c test rows)
      → (row : Row J W) × Memᴰ row rows × (test row ≡ true) × (y ≡ from_row c row)
  unfolding rows_where
  rows_where-only [] y m = elim m [ ]
  rows_where-only (x ∷ rows) y m = elim (Bool-cases (test x)) [
    | inl hit ↦ elim (parts (rw hit at m)) [
      | inl same ↦ (x, Memᴰ.head refl, hit, same)
      | inr later ↦
          let (row, n, h, this) = rows_where-only rows y later in (row, Memᴰ.tail n, h, this)
    ]
    | inr miss ↦
        let (row, n, h, this) = rows_where-only rows y (rw miss at m) in (row, Memᴰ.tail n, h, this)
  ]

-- ===== src/Nlp/Normalizer/Counts.antt =====
-- The counts and the keys of merged entities.
use ligp_v.Prelude.{
  ℕ, ◌+◌, ◌≡◌, refl, Bool, false, ◌||◌, Option, none, some, List, [], ◌∷◌, ◌++◌, ◌&&◌, not, String,
  if◌then◌else◌, arith, or_default, string_eq, ◌==◌, eq_iff, Option-cases, inl, inr, Bool-cases,
}
use ligp_v.Dict.{Dict, get, put, get-put, values, keys, member, member-put}
use ligp_v.Nlp.Normalizer.{
  Entity, Merged, count_of, sorted_set, key_of, merge_one, merge_loop, merge_duplicates,
}

abbrev pub total : List Merged → ℕ
total [] = 0
total (m ∷ ms) = m.count + total ms

abbrev pub counted : List Entity → ℕ
counted [] = 0
counted (e ∷ es) = count_of e + counted es

-- What the record under a key counts, if there is one.
abbrev count_at : Option Merged → ℕ
count_at none = 0
count_at (some m) = m.count

total-put :
    (k : String) (m : Merged) (d : Dict String Merged)
    → total (values (put k m d)) + count_at (get k d) ≡ total (values d) + m.count
unfolding get put
total-put k m [] = omega arith
total-put k m ((j, x) ∷ d) = elim (Bool-cases (j == k)) [
  | inl here ↦ rw (here, put, get) (omega arith)
  | inr other ↦ rw (other, put, get) (omega (arith, total-put k m d))
]

-- How often a key stands in the dictionary.
abbrev pub times : String → List String → ℕ
times k [] = 0
times k (j ∷ ks) = let rest = times k ks in if j == k then rest + 1 else rest

times-put :
    (k j : String) (m : Merged) (d : Dict String Merged)
    → times j (keys (put k m d)) ≡ times j (keys d) + (if k == j && not (member k d) then 1 else 0)
unfolding get put
times-put k j m [] = ground arith
times-put k j m ((i, x) ∷ d) = ground (arith, times-put k j m d, eq_iff i k, eq_iff i j, eq_iff k j)

-- Every key that is there stands once.
Once : Dict String Merged → Type 0
Once d = (j : String) → times j (keys d) ≡ (if member j d then 1 else 0)

Once-empty : Once []
unfolding Once get
Once-empty j = refl

Once-put : (k : String) (m : Merged) (d : Dict String Merged) → Once d → Once (put k m d)
unfolding Once
Once-put k m d h j = ground (arith, times-put k j m d, h j, get-put k j m d, eq_iff k j)

module _ (lower : String → String) where
  total-merge_one :
      (e : Entity) (d : Dict String Merged)
      → total (values (merge_one lower e d)) ≡ total (values d) + count_of e
  unfolding merge_one
  total-merge_one e d = elim (Option-cases (get (key_of lower e) d)) [
    | inl new ↦
        let fresh : Merged = record {
          canonical = or_default e.canonical "";
          qid = e.qid;
          aliases = or_default e.aliases [];
          count = count_of e;
        } in
        ground (arith, new, total-put (key_of lower e) fresh d)
    | inr (m, old) ↦
        let grown : Merged = record m {
          count = m.count + count_of e;
          aliases = sorted_set (m.aliases ++ or_default e.aliases []);
        } in
        ground (arith, old, total-put (key_of lower e) grown d)
  ]

  total-merge_loop :
      (es : List Entity) (d : Dict String Merged)
      → total (values (merge_loop lower es d)) ≡ total (values d) + counted es
  unfolding merge_loop
  total-merge_loop [] d = omega arith
  total-merge_loop (e ∷ es) d =
      omega (arith, total-merge_loop es (merge_one lower e d), total-merge_one e d)

  merge_one-put :
      (e : Entity) (d : Dict String Merged)
      → (m : Merged) × (merge_one lower e d ≡ put (key_of lower e) m d)
  unfolding merge_one
  merge_one-put e d = elim (Option-cases (get (key_of lower e) d)) [
    | inl new ↦
        let fresh : Merged = record {
          canonical = or_default e.canonical "";
          qid = e.qid;
          aliases = or_default e.aliases [];
          count = count_of e;
        } in
        (fresh, ground (arith, new))
    | inr (m, old) ↦
        let grown : Merged = record m {
          count = m.count + count_of e;
          aliases = sorted_set (m.aliases ++ or_default e.aliases []);
        } in
        (grown, ground (arith, old))
  ]

  abbrev pub has_key : String → List Entity → Bool
  has_key k [] = false
  has_key k (e ∷ es) = key_of lower e == k || has_key k es

  keys-merge_loop :
      (es : List Entity) (d : Dict String Merged) (k : String)
      → Once d
      → times k (keys (merge_loop lower es d)) ≡ (if member k d || has_key k es then 1 else 0)
  unfolding merge_loop
  keys-merge_loop [] d k h = unfold Once in ground (arith, h k)
  keys-merge_loop (e ∷ es) d k h =
      let (m, step) = merge_one-put e d in
      let later : Once (merge_one lower e d) = rw step (Once-put (key_of lower e) m d h) in
      let grew : member k (merge_one lower e d) ≡ (key_of lower e == k || member k d) =
        rw step (member-put (key_of lower e) k m d) in
      ground (arith, keys-merge_loop es (merge_one lower e d) k later, grew)

  -- Merging entities loses no count: the counts of the records add up to those of the entities. And
  -- the records stand under the keys of the entities, each key once.
  pub merge_duplicates_lem :
      (entities : List Entity) (k : String)
      → (total (merge_duplicates lower entities) ≡ counted entities)
        × (times k (keys (merge_loop lower entities [])) ≡ (if has_key k entities then 1 else 0))
  unfolding merge_duplicates
  merge_duplicates_lem entities k = (
    unfold get in ground (arith, total-merge_loop entities []),
    unfold get in ground (arith, keys-merge_loop entities [] k Once-empty),
  )

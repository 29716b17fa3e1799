-- ===== src/Processing/Deduplicator/Memory.antt =====
-- What the deduplicator remembers.
use ligp_v.Prelude.{
  ℕ, ◌-◌, ◌≡◌, refl, Bool, true, false, ◌||◌, ◌&&◌, Option, some, List, [], ◌∷◌, arith, String,
  or_default, contains, contains-append, Eq, nat_eq, string_eq, pair_eq, ap, ◌∙◌, inl, inr, eq_iff,
  max, Bool-cases, Option-cases,
}
use ligp_v.Dict.{Dict, get, put, get-put, values, member}
use ligp_v.Processing.Deduplicator.{
  Deduplicator, LshIndex, keys_of, fill, add, gather, candidates, any_similar, any_near, register,
  is_duplicate, reaches,
}
use ligp_v.Processing.Signatures.{add_new, union, shingles, signature, similarity, simhash}

contains-add_new :
    {A : Type 0} ⦃e : Eq A⦄ (x y : A) (xs : List A)
    → contains (add_new x xs) y ≡ (e.beq x y || contains xs y)
unfolding add_new
contains-add_new ⦃e⦄ x y xs = ground (arith, contains-append xs (x ∷ []) y, e.beq_iff x y)

contains-union :
    {A : Type 0} ⦃e : Eq A⦄ (y : A) (xs ys : List A)
    → contains (union xs ys) y ≡ (contains xs y || contains ys y)
unfolding union
contains-union y xs [] = ground arith
contains-union y xs (z ∷ ys) =
    ground (arith, contains-union y (add_new z xs) ys, contains-add_new z y xs)

-- The buckets of an index hold only keys that have a signature.
abbrev pub Indexed : LshIndex → Type 0
Indexed i =
    (bk : ℕ × ℕ) (key : String)
    → contains (or_default (get bk i.buckets) []) key ≡ true
    → member key i.sigs ≡ true

contains-fill :
    {K : Type 0} ⦃e : Eq K⦄ (key k : String) (bks : List K) (bk : K)
    (buckets : Dict K (List String))
    → contains (or_default (get bk (fill key bks buckets)) []) k
      ≡ (contains (or_default (get bk buckets) []) k || (contains bks bk && string_eq.beq key k))
unfolding fill
contains-fill key k [] bk buckets = ground arith
contains-fill ⦃e⦄ key k (b ∷ bks) bk buckets = ground (
  arith,
  contains-fill key k bks bk (put b (add_new key (or_default (get b buckets) [])) buckets),
  get-put b bk (add_new key (or_default (get b buckets) [])) buckets,
  contains-add_new key k (or_default (get b buckets) []),
  eq_iff key k,
  e.beq_iff b bk,
)

pub add-Indexed :
    (hash : List ℕ → ℕ) (key : String) (sig : List ℕ) (i : LshIndex)
    → Indexed i
    → Indexed (add hash key sig i)
unfolding add
add-Indexed hash key sig i h bk k m = ground (
  arith,
  contains-fill key k (keys_of hash i sig) bk i.buckets,
  h bk k,
  get-put key k sig i.sigs,
  eq_iff key k,
)

gather-In :
    (bks : List (ℕ × ℕ)) (i : LshIndex) (found : List String) (k : String)
    → Indexed i
    → (contains found k ≡ true → member k i.sigs ≡ true)
    → contains (gather bks i.buckets found) k ≡ true
    → member k i.sigs ≡ true
unfolding gather
gather-In [] i found k h old m = old m
gather-In (bk ∷ bks) i found k h old m =
    gather-In bks i (union found (or_default (get bk i.buckets) [])) k h
      (λ c. ground (arith, contains-union k found (or_default (get bk i.buckets) []), old, h bk k))
      m

candidates-In :
    (hash : List ℕ → ℕ) (sig : List ℕ) (i : LshIndex) (k : String)
    → Indexed i
    → contains (candidates hash sig i) k ≡ true
    → member k i.sigs ≡ true
unfolding candidates
candidates-In hash sig i k h m =
    gather-In (keys_of hash i sig) i [] k h (λ c. absurd (ground arith)) m

-- The search over candidates that all have a signature does not fail.
any_similar_total :
    (jaccard : ℕ × ℕ) (sig : List ℕ) (sigs : Dict String (List ℕ)) (cands : List String)
    → ((k : String) → contains cands k ≡ true → member k sigs ≡ true)
    → (b : Bool) × (any_similar jaccard sig sigs cands ≡ some b)
unfolding any_similar
any_similar_total jaccard sig sigs [] h = (false, refl)
any_similar_total jaccard sig sigs (c ∷ cands) h =
    let there : member c sigs ≡ true = h c (ground (arith, eq_iff c c)) in
    let (b, e) = any_similar_total jaccard sig sigs cands (λ k m. h k (ground arith)) in
    elim (Option-cases (get c sigs)) [
      | inl g ↦ absurd (ground (arith, g, there))
      | inr (other, g) ↦ elim (Bool-cases (reaches (similarity sig other) jaccard)) [
        | inl p ↦ (true, rw (g, p, any_similar))
        | inr p ↦ (b, rw (g, p, any_similar) e)
      ]
    ]

module _ (tokens : String → List String) (normal : String → String) (hash64 : String → ℕ)
    (hash : List ℕ → ℕ) (content_hash : String → String) where
  abbrev check : String → String → Deduplicator → Option (Deduplicator × Bool)
  check = is_duplicate tokens normal hash64 hash content_hash

  check_known :
      (key text : String) (d : Deduplicator)
      → contains d.exact (content_hash text) ≡ true
      → check key text d ≡ some (d, true)
  unfolding is_duplicate
  check_known key text d h = rw h

  -- On an index whose buckets hold only keys with a signature, `is_duplicate` answers without a
  -- KeyError and leaves such an index; whatever it answers, the same text is a duplicate at the
  -- next call, under any key, and that call changes nothing.
  pub is_duplicate_again :
      (key key' text : String) (d : Deduplicator)
      → Indexed d.lsh
      → (d' : Deduplicator) × (b : Bool) × (check key text d ≡ some (d', b))
        × (check key' text d' ≡ some (d', true))
        × Indexed d'.lsh
  unfolding is_duplicate register
  is_duplicate_again key key' text d ix =
      let sig = signature hash64 d.minhash (shingles tokens text d.shingle_k) in
      let sh = simhash tokens normal hash64 text (max 1 (d.shingle_k - 1)) in
      let cands = candidates hash sig d.lsh in
      let indexed : (k : String) → contains cands k ≡ true → member k d.lsh.sigs ≡ true =
        λ k m. candidates-In hash sig d.lsh k ix m in
      let (similar, e) = any_similar_total d.jaccard sig d.lsh.sigs cands indexed in
      elim (Bool-cases (contains d.exact (content_hash text))) [
        | inl p ↦ (d, true, rw (p, is_duplicate), rw (p, is_duplicate), ix)
        | inr p ↦ elim (Bool-cases similar) [
          | inl t ↦
              let e' = e ∙ ap some t in
              (d, true, rw (p, e', is_duplicate), rw (p, e', is_duplicate), ix)
          | inr t ↦
              let e' = e ∙ ap some t in
              elim (Bool-cases (any_near d.simhash_max_distance sh (values d.simhashes))) [
                | inl n ↦ (d, true, rw (p, e', n, is_duplicate), rw (p, e', n, is_duplicate), ix)
                | inr n ↦
                    let d' =
                      register tokens normal hash64 hash content_hash key (content_hash text) sig sh
                        d in
                    (
                      d',
                      false,
                      rw (p, e', n, is_duplicate),
                      check_known key' text d' (
                          ground (
                            arith,
                            contains-add_new (content_hash text) (content_hash text) d.exact,
                            eq_iff (content_hash text) (content_hash text),
                          )),
                      add-Indexed hash key sig d.lsh ix,
                    )
              ]
        ]
      ]

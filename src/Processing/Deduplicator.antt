-- ===== src/Processing/Deduplicator.antt =====
-- `LSHIndex` and `Deduplicator` of processing/deduplicator.py. `hash` is Python's hash of a tuple and
-- `content_hash` that of utils/helpers.py. The threshold is the fraction `jaccard.0 / jaccard.1`.
pub mod Memory
use ligp_v.Prelude.{
  ℕ, zero, suc, ◌+◌, ◌-◌, ◌*◌, ◌/◌, ◌%◌, ◌^◌, min, max, Bool, true, false, not, ◌||◌, ◌&&◌, Option,
  none, some, List, [], ◌∷◌, ◌++◌, arith, if◌then◌else◌, String, length, take, drop, leb, ltb,
  nat_beq, or_default, contains, concat, Eq, nat_eq, string_eq, pair_eq,
}
use ligp_v.Dict.{Dict, get, put, values}
use ligp_v.Processing.Signatures.{
  add_new, union, shingles, MinHash, signature, similarity, hamming_distance, simhash,
}

pub record LshIndex : Type 0 where
  pub num_perm : ℕ
  pub bands : ℕ
  pub buckets : Dict (ℕ × ℕ) (List String)
  pub sigs : Dict String (List ℕ)

-- The keys of the bands from `band` on, `left` of them.
unfoldable pub band_keys : (List ℕ → ℕ) → ℕ → ℕ → ℕ → List ℕ → List (ℕ × ℕ)
band_keys hash r zero band sig = []
band_keys hash r (suc left) band sig =
    (band, hash (take r (drop (band * r) sig))) ∷ band_keys hash r left (suc band) sig

-- `_band_keys`; `rows` is `num_perm // bands`.
unfoldable pub keys_of : (List ℕ → ℕ) → LshIndex → List ℕ → List (ℕ × ℕ)
keys_of hash i sig = band_keys hash (i.num_perm / i.bands) i.bands 0 sig

unfoldable pub fill :
    {K : Type 0} ⦃e : Eq K⦄ → String → List K → Dict K (List String) → Dict K (List String)
fill key [] buckets = buckets
fill key (bk ∷ bks) buckets =
    fill key bks (put bk (add_new key (or_default (get bk buckets) [])) buckets)

unfoldable pub add : (List ℕ → ℕ) → String → List ℕ → LshIndex → LshIndex
add hash key sig i = record i {
  sigs = put key sig i.sigs;
  buckets = fill key (keys_of hash i sig) i.buckets;
}

unfoldable pub gather : List (ℕ × ℕ) → Dict (ℕ × ℕ) (List String) → List String → List String
gather [] buckets found = found
gather (bk ∷ bks) buckets found = gather bks buckets (union found (or_default (get bk buckets) []))

unfoldable pub candidates : (List ℕ → ℕ) → List ℕ → LshIndex → List String
candidates hash sig i = gather (keys_of hash i sig) i.buckets []

pub record Deduplicator : Type 0 where
  pub jaccard : ℕ × ℕ
  pub simhash_max_distance : ℕ
  pub shingle_k : ℕ
  pub minhash : MinHash
  pub lsh : LshIndex
  pub simhashes : Dict String ℕ
  pub exact : List String

-- `similarity >= threshold`
abbrev pub reaches : ℕ × ℕ → ℕ × ℕ → Bool
reaches s t = leb (t.0 * s.1) (s.0 * t.1)

-- The loop over the candidates; `none` is the KeyError of a candidate without a signature.
unfoldable pub any_similar : ℕ × ℕ → List ℕ → Dict String (List ℕ) → List String → Option Bool
any_similar jaccard sig sigs [] = some false
any_similar jaccard sig sigs (c ∷ cands) = elim (get c sigs) [
  | none ↦ none
  | some other ↦
      if reaches (similarity sig other) jaccard
      then some true
      else any_similar jaccard sig sigs cands
]

unfoldable pub any_near : ℕ → ℕ → List ℕ → Bool
any_near distance sh [] = false
any_near distance sh (other ∷ others) =
    leb (hamming_distance sh other) distance || any_near distance sh others

module _ (tokens : String → List String) (normal : String → String) (hash64 : String → ℕ)
    (hash : List ℕ → ℕ) (content_hash : String → String) where
  unfoldable pub register : String → String → List ℕ → ℕ → Deduplicator → Deduplicator
  register key exact sig sh d = record d {
    exact = add_new exact d.exact;
    lsh = add hash key sig d.lsh;
    simhashes = put key sh d.simhashes;
  }

  unfoldable pub is_duplicate : String → String → Deduplicator → Option (Deduplicator × Bool)
  is_duplicate key text d =
      let exact = content_hash text in
      if contains d.exact exact
      then some (d, true)
      else let sig = signature hash64 d.minhash (shingles tokens text d.shingle_k) in
        elim (any_similar d.jaccard sig d.lsh.sigs (candidates hash sig d.lsh)) [
          | none ↦ none
          | some true ↦ some (d, true)
          | some false ↦
              let sh = simhash tokens normal hash64 text (max 1 (d.shingle_k - 1)) in
              if any_near d.simhash_max_distance sh (values d.simhashes)
              then some (d, true)
              else some (register key exact sig sh d, false)
        ]

-- ===== src/Tests/Processing.antt =====
-- A small deduplicator, with two permutations in one band.
use ligp_v.Prelude.{ℕ, ◌≡◌, Bool, true, some, List, [], ◌∷◌, arith, String}
use ligp_v.Processing.Signatures.{minhash_init}
use ligp_v.Processing.Deduplicator.{Deduplicator, is_duplicate}
use ligp_v.Processing.Deduplicator.Memory.{Indexed, is_duplicate_again}
use ligp_v.Dict.{get}

abbrev pub words : String → List String
words text = text ∷ []

abbrev pub same : String → String
same text = text

abbrev pub hash64 : String → ℕ
hash64 text = 7

abbrev pub hash : List ℕ → ℕ
hash [] = 0
hash (x ∷ xs) = x

abbrev pub fresh : Deduplicator
fresh = record {
  jaccard = (85, 100);
  simhash_max_distance = 3;
  shingle_k = 3;
  minhash = minhash_init 2 1;
  lsh = record { num_perm = 2; bands = 1; buckets = []; sigs = [] };
  simhashes = [];
  exact = [];
}

pub fresh-Indexed : Indexed fresh.lsh
unfolding get
fresh-Indexed = λ bk key m. absurd (ground arith)

is_duplicate_again_example :
    (d : Deduplicator) × (b : Bool) × (is_duplicate words same hash64 hash same "k1" "a text" fresh
      ≡ some (d, b))
    × (is_duplicate words same hash64 hash same "k2" "a text" d ≡ some (d, true))
    × Indexed d.lsh
is_duplicate_again_example =
    is_duplicate_again words same hash64 hash same "k1" "k2" "a text" fresh fresh-Indexed

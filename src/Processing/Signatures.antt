-- ===== src/Processing/Signatures.antt =====
-- The signatures of processing/deduplicator.py. A set is a list without repetitions, in the order of
-- the insertions; nothing depends on that order. `tokens` is the word regex on the normalized text in
-- lower case, `normal` that text, and `hash64` the BLAKE2 hash.
use ligp_v.Prelude.{
  ℕ, zero, suc, ◌+◌, ◌-◌, ◌*◌, ◌/◌, ◌%◌, ◌^◌, min, not, ◌||◌, List, [], ◌∷◌, ◌++◌, if◌then◌else◌,
  String, length, take, drop, ltb, nat_beq, contains, concat, Eq, nat_eq, string_eq, pair_eq,
}

-- `s.add(x)`, and `a |= b`
unfoldable pub add_new : {A : Type 0} ⦃e : Eq A⦄ → A → List A → List A
add_new x xs = if contains xs x then xs else xs ++ x ∷ []

unfoldable pub union : {A : Type 0} ⦃e : Eq A⦄ → List A → List A → List A
union xs [] = xs
union xs (y ∷ ys) = union (add_new y xs) ys

-- `" ".join(words)`
unfoldable pub joined : List String → String
joined [] = ""
joined (w ∷ []) = w
joined (w ∷ v ∷ words) = concat w (concat " " (joined (v ∷ words)))

-- The windows of `k` words, from as many places as `count` says.
unfoldable pub windows : ℕ → ℕ → List String → List String
windows zero k words = []
windows (suc count) k words = joined (take k words) ∷ windows count k (drop 1 words)

unfoldable pub shingles : (String → List String) → String → ℕ → List String
shingles tokens text k =
    let words = tokens text in
    if ltb (length words) k
    then (elim words [ [] ↦ [] | w ∷ ws ↦ joined (w ∷ ws) ∷ [] ])
    else union [] (windows (length words - k + 1) k words)

-- `_LCG`: a state below 2 ^ 64.
unfoldable pub lcg_next : ℕ → ℕ
lcg_next state = (6364136223846793005 * state + 1442695040888963407) % 2 ^ 64

-- `v or 1`, with the state after the draw.
unfoldable pub lcg_next_nonzero : ℕ → ℕ × ℕ
lcg_next_nonzero state = let v = lcg_next state in (v, if nat_beq v 0 then 1 else v)

pub record MinHash : Type 0 where
  pub num_perm : ℕ
  pub a : List ℕ
  pub b : List ℕ

-- The two lists of `__init__`.
unfoldable pub draw_nonzero : ℕ → ℕ → List ℕ × ℕ
draw_nonzero zero state = ([], state)
draw_nonzero (suc n) state =
    let (state', v) = lcg_next_nonzero state in
    let (vs, last) = draw_nonzero n state' in (v ∷ vs, last)

unfoldable pub draw : ℕ → ℕ → List ℕ
draw zero state = []
draw (suc n) state = lcg_next state ∷ draw n (lcg_next state)

unfoldable pub minhash_init : ℕ → ℕ → MinHash
minhash_init num_perm seed =
    let (a, state) = draw_nonzero num_perm (seed % 2 ^ 64) in
    record { num_perm = num_perm; a = a; b = draw num_perm state }

abbrev pub prime : ℕ
prime = 2 ^ 61 - 1

-- `min((a * h + b) % prime for h in hashed)`, of hashes `h ∷ hs`.
unfoldable pub least : ℕ → ℕ → ℕ → List ℕ → ℕ
least a b h [] = (a * h + b) % prime
least a b h (h' ∷ hs) = min ((a * h + b) % prime) (least a b h' hs)

unfoldable pub all_least : List ℕ → List ℕ → ℕ → List ℕ → List ℕ
all_least (a ∷ rest) (b ∷ bs) h hs = least a b h hs ∷ all_least rest bs h hs
all_least [] bs h hs = []
all_least (a ∷ rest) [] h hs = []

abbrev pub replicate : ℕ → ℕ → List ℕ
replicate zero x = []
replicate (suc n) x = x ∷ replicate n x

-- `_hash64(s) % prime` of each shingle
abbrev pub hashes : (String → ℕ) → List String → List ℕ
hashes hash64 [] = []
hashes hash64 (s ∷ ss) = hash64 s % prime ∷ hashes hash64 ss

unfoldable pub signature : (String → ℕ) → MinHash → List String → List ℕ
signature hash64 m [] = replicate m.num_perm prime
signature hash64 m (s ∷ ss) = all_least m.a m.b (hash64 s % prime) (hashes hash64 ss)

abbrev pub equal_places : List ℕ → List ℕ → ℕ
equal_places (x ∷ xs) (y ∷ ys) =
    let rest = equal_places xs ys in if nat_beq x y then suc rest else rest
equal_places [] ys = 0
equal_places (x ∷ xs) [] = 0

-- `similarity`, as a fraction; 0 for an empty signature or for two of different lengths.
unfoldable pub similarity : List ℕ → List ℕ → ℕ × ℕ
similarity sig_a sig_b =
    if nat_beq (length sig_a) 0 || not (nat_beq (length sig_a) (length sig_b))
    then (0, 1)
    else (equal_places sig_a sig_b, length sig_a)

-- The number of bits, of `bits` low ones, in which two numbers differ.
unfoldable pub differing : ℕ → ℕ → ℕ → ℕ
differing zero a b = 0
differing (suc bits) a b =
    let rest = differing bits (a / 2) (b / 2) in if nat_beq (a % 2) (b % 2) then rest else suc rest

unfoldable pub hamming_distance : ℕ → ℕ → ℕ
hamming_distance a b = differing 64 a b

-- `simhash`: bit `i` is set where more hashes of the features have it than have not.
unfoldable pub votes : (String → ℕ) → ℕ → List String → ℕ × ℕ
votes hash64 i [] = (0, 0)
votes hash64 i (f ∷ feats) =
    let (up, down) = votes hash64 i feats in
    if nat_beq (hash64 f / 2 ^ i % 2) 1 then (suc up, down) else (up, suc down)

unfoldable pub bits_below : (String → ℕ) → ℕ → List String → ℕ
bits_below hash64 zero feats = 0
bits_below hash64 (suc i) feats =
    let (up, down) = votes hash64 i feats in
    bits_below hash64 i feats + (if ltb down up then 2 ^ i else 0)

unfoldable pub simhash : (String → List String) → (String → String) → (String → ℕ) → String → ℕ → ℕ
simhash tokens normal hash64 text k = elim (shingles tokens text k) [
  | [] ↦ bits_below hash64 64 (normal text ∷ [])
  | f ∷ feats ↦ bits_below hash64 64 (f ∷ feats)
]

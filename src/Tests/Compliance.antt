-- ===== src/Tests/Compliance.antt =====
-- Masking of a text of five characters, of which every pattern matches two.
use ligp_v.Prelude.{ℕ, ◌≡◌, List, [], ◌∷◌, String, All, length, arith}
use ligp_v.Compliance.Pii.{detect_only, mask}
use ligp_v.Compliance.Pii.Spans.{Chain, FitsIn, detect_only-Chain}
use ligp_v.Compliance.Pii.Masking.{masked, mask_lem}

abbrev finditer : String → List ℕ → List (ℕ × ℕ)
finditer ptype text = (1, 3) ∷ []

abbrev five : List ℕ
five = 10 ∷ 11 ∷ 12 ∷ 13 ∷ 14 ∷ []

abbrev chars : String → List ℕ
chars s = 0 ∷ []

fits : (ptype : String) → All (FitsIn (length five)) (finditer ptype five)
fits ptype = ((omega arith, omega arith), tt)

detect_only-Chain_example : Chain 0 5 (detect_only finditer five)
detect_only-Chain_example = detect_only-Chain finditer five fits

mask_lem_example :
    mask finditer chars five
    ≡ (masked chars 0 five (detect_only finditer five), detect_only finditer five)
mask_lem_example = mask_lem chars finditer five fits

-- ===== src/Compliance/Pii.antt =====
-- `PIIMasker` of compliance/pii_masker.py. A text is its list of characters, `chars` gives those of a
-- text of the program, and `finditer` gives the spans that the pattern of a name matches.
pub mod Spans
pub mod Masking
use ligp_v.Prelude.{
  ℕ, ◌-◌, Bool, false, ◌||◌, ◌&&◌, List, [], ◌∷◌, ◌++◌, if◌then◌else◌, String, ltb, take, drop,
  or_default, string_eq,
}
use ligp_v.Dict.{Dict, get}

-- The names of `_PATTERNS`.
abbrev pub patterns : List String
patterns = "email" ∷ "krrn" ∷ "credit_card" ∷ "phone_kr" ∷ "phone_intl" ∷ []

abbrev pub mask_tokens : Dict String String
mask_tokens =
    ("email", "[EMAIL]")
    ∷ ("krrn", "[RRN]")
    ∷ ("credit_card", "[CARD]")
    ∷ ("phone_kr", "[PHONE]")
    ∷ ("phone_intl", "[PHONE]")
    ∷ []

pub record Detection (C : Type 0) : Type 0 where
  pub type : String
  pub original : List C
  pub start : ℕ
  pub end : ℕ

-- `_overlaps`
unfoldable pub overlaps : List (ℕ × ℕ) → ℕ → ℕ → Bool
overlaps [] s e = false
overlaps (c ∷ claimed) s e = ltb s c.1 && ltb c.0 e || overlaps claimed s e

-- The lists `claimed` and `detections`.
pub record Found (C : Type 0) : Type 0 where
  pub claimed : List (ℕ × ℕ)
  pub detections : List (Detection C)

module _ {C : Type 0} where
  -- The loop over the matches of a pattern.
  unfoldable pub claim_matches : String → List C → List (ℕ × ℕ) → Found C → Found C
  claim_matches ptype text [] f = f
  claim_matches ptype text (m ∷ matches) f = claim_matches ptype text matches (
      if overlaps f.claimed m.0 m.1 then f else record {
        claimed = f.claimed ++ m ∷ [];
        detections =
            f.detections
            ++ record {
              type = ptype;
              original = take (m.1 - m.0) (drop m.0 text);
              start = m.0;
              end = m.1;
            }
              ∷ [];
      })

  -- `detections.sort(key=lambda d: d["start"])`, a stable sort.
  unfoldable pub insert_by_start : Detection C → List (Detection C) → List (Detection C)
  insert_by_start d [] = d ∷ []
  insert_by_start d (x ∷ xs) =
      let rest = insert_by_start d xs in if ltb x.start d.start then x ∷ rest else d ∷ x ∷ xs

  unfoldable pub sort_by_start : List (Detection C) → List (Detection C)
  sort_by_start [] = []
  sort_by_start (d ∷ ds) = insert_by_start d (sort_by_start ds)

  -- `sorted(detections, key=lambda d: d["start"], reverse=True)`, a stable sort.
  unfoldable pub insert_reverse : Detection C → List (Detection C) → List (Detection C)
  insert_reverse d [] = d ∷ []
  insert_reverse d (x ∷ xs) =
      let rest = insert_reverse d xs in if ltb d.start x.start then x ∷ rest else d ∷ x ∷ xs

  unfoldable pub sort_reverse : List (Detection C) → List (Detection C)
  sort_reverse [] = []
  sort_reverse (d ∷ ds) = insert_reverse d (sort_reverse ds)

  module _ (chars : String → List C) where
    abbrev pub token_of : Detection C → List C
    token_of d = chars (or_default (get d.type mask_tokens) "[PII]")

    -- The loop of `mask`.
    unfoldable pub replace_all : List (Detection C) → List C → List C
    replace_all [] out = out
    replace_all (d ∷ ds) out = replace_all ds (take d.start out ++ (token_of d ++ drop d.end out))

  module _ (finditer : String → List C → List (ℕ × ℕ)) where
    -- The loop over the patterns.
    unfoldable pub claim_patterns : List String → List C → Found C → Found C
    claim_patterns [] text f = f
    claim_patterns (ptype ∷ ptypes) text f =
        claim_patterns ptypes text (claim_matches ptype text (finditer ptype text) f)

    unfoldable pub detect_only : List C → List (Detection C)
    detect_only [] = []
    detect_only (x ∷ xs) =
        sort_by_start
          (claim_patterns patterns (x ∷ xs) (record { claimed = []; detections = [] })).detections

    unfoldable pub mask : (String → List C) → List C → List C × List (Detection C)
    mask chars text =
        let detections = detect_only text in
        (replace_all chars (sort_reverse detections) text, detections)

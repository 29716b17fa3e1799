-- ===== src/Content/QualityGate.antt =====
-- `QualityGate` of content_factory/quality_gate.py. The platforms' limits, the banned terms and the
-- threshold are read from the configuration; `textstat` is what that package says of a text, where it
-- is installed. Issues are values instead of messages, and the log is left out.
pub mod Verdicts
use ligp_v.Prelude.{
  ℕ, ◌*◌, Bool, true, false, not, ◌&&◌, ◌||◌, Option, none, some, List, [], ◌∷◌, ◌++◌, arith,
  if◌then◌else◌, String, Eq, leb, ltb, length, or_default, nonempty,
}
use ligp_v.Compliance.Copyright.{Chars, Fraction, score, is_safe}
use ligp_v.Content.Readability.{blank, flesch_kincaid_reading_ease}

pub data Issue (C : Type 0) : Type 0 where
  empty_body missing_title : Issue C
  exceeds_max_chars : ℕ → ℕ → Issue C
  unreadable : Fraction → Issue C
  banned_term : List C → Issue C
  copyright_risk : Fraction → Issue C

-- The keys of a content that are read.
pub record Content (C : Type 0) : Type 0 where
  pub body : Option (List C)
  pub title : Option (List C)
  pub source_url : Option String
  pub license : Option String

pub record Gate (C : Type 0) : Type 0 where
  pub readability_min : ℕ
  pub banned_terms : List (List C)
  pub max_chars : String → Option ℕ
  pub textstat : Option (List C → Fraction)
  pub low : String → String

module _ {C : Type 0} ⦃e : Eq C⦄ where
  unfoldable pub is_prefix : List C → List C → Bool
  is_prefix [] text = true
  is_prefix (t ∷ term) [] = false
  is_prefix (t ∷ term) (c ∷ text) = e.beq t c && is_prefix term text

  -- `term in text`
  unfoldable pub occurs : List C → List C → Bool
  occurs term [] = is_prefix term []
  occurs term (c ∷ text) = is_prefix term (c ∷ text) || occurs term text

  unfoldable pub banned : List (List C) → List C → List (Issue C)
  banned [] text = []
  banned (t ∷ terms) text =
      let rest = banned terms text in if occurs t text then banned_term t ∷ rest else rest

module _ {C : Type 0} where
  -- `if max_chars and len(body) > max_chars`
  unfoldable pub too_long : Option ℕ → ℕ → List (Issue C)
  too_long none n = []
  too_long (some limit) n =
      if ltb 0 limit && ltb limit n then exceeds_max_chars n limit ∷ [] else []

  unfoldable pub body_of : Content C → List C
  body_of content = or_default content.body []

module _ {C : Type 0} ⦃k : Chars C⦄ where
  unfoldable pub stage1_format : Gate C → Content C → String → List (Issue C)
  stage1_format gate content platform =
      (if blank (body_of content) then empty_body ∷ [] else [])
      ++ ((if blank (or_default content.title []) then missing_title ∷ [] else [])
          ++ too_long (gate.max_chars platform) (length (body_of content)))

  unfoldable pub stage2_readability : Gate C → Content C → Fraction
  stage2_readability gate content = elim gate.textstat [
    | none ↦ flesch_kincaid_reading_ease (body_of content)
    | some ease ↦ ease (body_of content)
  ]

  -- The risk of a content, with the defaults of the keys.
  unfoldable pub risk_of : Gate C → Content C → Fraction
  risk_of gate content =
      score gate.low (body_of content) (or_default content.source_url "") content.license

  -- `readability < self.readability_min`
  unfoldable pub hard_to_read : Gate C → Content C → Bool
  hard_to_read gate content =
      let r = stage2_readability gate content in ltb r.num (gate.readability_min * r.den)

module _ {C : Type 0} ⦃k : Chars C⦄ ⦃e : Eq C⦄ where
  unfoldable pub stage3_brand_safety : Gate C → Content C → List (Issue C)
  stage3_brand_safety gate content =
      let risk = risk_of gate content in
      banned gate.banned_terms (k.lower (body_of content))
      ++ (if is_safe 300 risk then [] else copyright_risk risk ∷ [])

  unfoldable pub check : Gate C → Content C → String → Bool × List (Issue C)
  check gate content platform =
      let issues =
        stage1_format gate content platform
        ++ ((if hard_to_read gate content
              then unreadable (stage2_readability gate content) ∷ []
              else [])
            ++ stage3_brand_safety gate content) in
      (elim issues [ [] ↦ true | _ ∷ _ ↦ false ], issues)

-- ===== src/Compliance/Copyright.antt =====
-- `CopyrightScorer` of compliance/copyright_scorer.py. A text is a list of characters, and what
-- `str` knows of characters is an interface. Floats are exact fractions: a weight or a risk in
-- thousandths over the length of the text. The log is left out.
pub mod Bounds
use ligp_v.Prelude.{
  ℕ, zero, suc, ◌+◌, ◌*◌, Bool, true, false, Option, none, some, List, [], ◌∷◌, arith,
  if◌then◌else◌, String, leb, length, min, nonempty, or_default, string_eq,
}
use ligp_v.Dict.{Dict, get}

-- The classes of characters: quotation marks, white space, `\w`, the ends of sentences, the vowels
-- that are counted, and `str.lower`.
pub record Chars (C : Type 0) : Type 0 where
  pub is_quote : C → Bool
  pub is_space : C → Bool
  pub is_word : C → Bool
  pub is_stop : C → Bool
  pub is_vowel : C → Bool
  pub lower : List C → List C

-- A fraction
pub record Fraction : Type 0 where
  pub num : ℕ
  pub den : ℕ

-- `_LICENSE_RISK`, in hundredths, but for the absent license.
abbrev pub license_risks : Dict String ℕ
license_risks =
    ("cc0", 0)
    ∷ ("cc-by", 5)
    ∷ ("cc-by-sa", 10)
    ∷ ("public-domain", 0)
    ∷ ("mit", 0)
    ∷ ("fair-use", 30)
    ∷ ("all-rights-reserved", 60)
    ∷ []

-- `_LICENSE_RISK.get((license_tag or "").lower() or None, 0.40)`
unfoldable pub license_risk : (String → String) → Option String → ℕ
license_risk low tag =
    let name = low (or_default tag "") in
    if nonempty name then or_default (get name license_risks) 40 else 40

-- `0.5 * quote_ratio + 0.2 * attribution_risk + 0.3 * license_risk`
unfoldable pub weighted : Fraction → String → ℕ → Fraction
weighted ratio source_url risk = record {
  num = 500 * ratio.num + ((if nonempty source_url then 0 else 200) + 3 * risk) * ratio.den;
  den = 1000 * ratio.den;
}

module _ {C : Type 0} ⦃k : Chars C⦄ where
  -- The characters that `_QUOTE_RE` finds between quotation marks, from the start of the text and
  -- from `n` characters after a mark: ten at least, up to the next mark, which is then used up.
  unfoldable pub quoted_from : Option ℕ → List C → ℕ
  quoted_from start [] = 0
  quoted_from none (c ∷ cs) = elim (k.is_quote c) [
    | true ↦ quoted_from (some 0) cs
    | false ↦ quoted_from none cs
  ]
  quoted_from (some n) (c ∷ cs) = elim (k.is_quote c) [
    | true ↦ elim (leb 10 n) [ true ↦ n + quoted_from none cs | false ↦ quoted_from (some 0) cs ]
    | false ↦ quoted_from (some (suc n)) cs
  ]

  -- `_quote_ratio`
  unfoldable pub quote_ratio : List C → Fraction
  quote_ratio [] = record { num = 0; den = 1 }
  quote_ratio (c ∷ cs) = record {
    num = min (length (c ∷ cs)) (quoted_from none (c ∷ cs));
    den = length (c ∷ cs);
  }

  unfoldable pub score : (String → String) → List C → String → Option String → Fraction
  score low text source_url license_tag =
      let risk = weighted (quote_ratio text) source_url (license_risk low license_tag) in
      record { num = min risk.den risk.num; den = risk.den }

-- `score <= threshold`, in thousandths.
unfoldable pub is_safe : ℕ → Fraction → Bool
is_safe threshold score = leb (1000 * score.num) (threshold * score.den)

module _ {C : Type 0} ⦃k : Chars C⦄ where
  unfoldable pub assess : (String → String) → List C → String → Option String → Fraction × Bool
  assess low text source_url license_tag =
      let s = score low text source_url license_tag in (s, is_safe 300 s)

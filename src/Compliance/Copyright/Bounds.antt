-- ===== src/Compliance/Copyright/Bounds.antt =====
-- The range of a copyright risk.
use ligp_v.Prelude.{
  ap, refl, ℕ, zero, suc, ◌+◌, ◌*◌, ◌≡◌, ◌≤◌, false, Option, none, some, List, [], ◌∷◌, arith,
  if◌then◌else◌, String, leb, length, min, nonempty, string_eq, Bool-cases, inl, inr,
}
use ligp_v.Dict.{get}
use ligp_v.Compliance.Copyright.{
  Chars, Fraction, license_risk, quoted_from, quote_ratio, weighted, score, is_safe,
}

-- No license counts for more than 60 hundredths.
license_risk_le : (low : String → String) (tag : Option String) → license_risk low tag ≤ 60
unfolding license_risk get
license_risk_le low tag = ground arith

-- The characters read since a quotation mark.
abbrev run_of : Option ℕ → ℕ
run_of none = 0
run_of (some n) = n

times_le : (a b n : ℕ) → a ≤ b → a * n ≤ b * n
times_le a b zero h = omega arith
times_le a b (suc n) h = omega (arith, times_le a b n h)

base_le :
    (source_url : String) (risk n : ℕ)
    → risk ≤ 60
    → ((if nonempty source_url then 0 else 200) + 3 * risk) * n ≤ 380 * n
base_le source_url risk n h =
    times_le ((if nonempty source_url then 0 else 200) + 3 * risk) 380 n (ground (arith, h))

weighted_le :
    (ratio : Fraction) (source_url : String) (risk : ℕ)
    → ratio.num ≤ ratio.den
    → risk ≤ 60
    → (weighted ratio source_url risk).num ≤ (weighted ratio source_url risk).den
unfolding weighted
weighted_le ratio source_url risk h low = omega (arith, base_le source_url risk ratio.den low)

min_right : (a b : ℕ) → b ≤ a → min a b ≡ b
min_right a b h = omega arith

module _ {C : Type 0} ⦃k : Chars C⦄ where
  -- What is counted as quoted is part of the text.
  quoted_from_le :
      (start : Option ℕ) (cs : List C) → quoted_from start cs ≤ run_of start + length cs
  unfolding quoted_from
  quoted_from_le start [] = omega arith
  quoted_from_le none (c ∷ cs) = elim (Bool-cases (k.is_quote c)) [
    | inl hit ↦ rw (hit, quoted_from) (omega (arith, quoted_from_le (some 0) cs))
    | inr miss ↦ rw (miss, quoted_from) (omega (arith, quoted_from_le none cs))
  ]
  quoted_from_le (some n) (c ∷ cs) = elim (Bool-cases (k.is_quote c)) [
    | inl hit ↦ elim (Bool-cases (leb 10 n)) [
      | inl long ↦ rw (hit, long, quoted_from) (omega (arith, quoted_from_le none cs))
      | inr short ↦ rw (hit, short, quoted_from) (omega (arith, quoted_from_le (some 0) cs))
    ]
    | inr miss ↦ rw (miss, quoted_from) (omega (arith, quoted_from_le (some (suc n)) cs))
  ]

  den-quote_ratio : (text : List C) → 1 ≤ (quote_ratio text).den
  unfolding quote_ratio
  den-quote_ratio [] = omega arith
  den-quote_ratio (c ∷ cs) = omega arith

  num-quote_ratio : (text : List C) → (quote_ratio text).num ≤ (quote_ratio text).den
  unfolding quote_ratio
  num-quote_ratio [] = omega arith
  num-quote_ratio (c ∷ cs) = omega arith

  -- The share of quoted text is that of the characters found, without the clamp.
  pub num-quote_ratio_exact : (text : List C) → (quote_ratio text).num ≡ quoted_from none text
  unfolding quote_ratio quoted_from
  num-quote_ratio_exact [] = omega arith
  num-quote_ratio_exact (c ∷ cs) = omega (arith, quoted_from_le none (c ∷ cs))

  -- A risk is the weighted sum of its three signals, which is at most 1 without the clamp.
  pub score_lem :
      (low : String → String) (text : List C) (source_url : String) (tag : Option String)
      → (score low text source_url tag
          ≡ weighted (quote_ratio text) source_url (license_risk low tag))
        × ((score low text source_url tag).num ≤ (score low text source_url tag).den)
  unfolding score
  score_lem low text source_url tag =
      let r = weighted (quote_ratio text) source_url (license_risk low tag) in
      let all : r.num ≤ r.den =
        weighted_le (quote_ratio text) source_url (license_risk low tag) (num-quote_ratio text)
          (license_risk_le low tag) in
      (ap (λ n. record { num = n; den = r.den }) (min_right r.den r.num all), omega (arith, all))

  -- A text without a source and without a license is not safe, whatever it quotes.
  pub score_unattributed :
      (low : String → String) (text : List C)
      → low "" ≡ ""
      → is_safe 300 (score low text "" none) ≡ false
  unfolding score is_safe weighted license_risk
  score_unattributed low text h = rw no_license (ground (arith, den-quote_ratio text))
    where
      no_license : license_risk low none ≡ 40
      no_license = rw h refl

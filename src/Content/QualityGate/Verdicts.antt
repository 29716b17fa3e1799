-- ===== src/Content/QualityGate/Verdicts.antt =====
-- What the gate lets pass.
use ligp_v.Prelude.{
  ℕ, ◌≡◌, refl, ap, sym, ◌∙◌, Bool, true, false, not, ◌&&◌, ◌||◌, Option, none, some, List, [], ◌∷◌,
  ◌++◌, arith, if◌then◌else◌, String, Eq, leb, length, or_default,
}
use ligp_v.Compliance.Copyright.{Chars, is_safe}
use ligp_v.Compliance.Copyright.Bounds.{score_unattributed}
use ligp_v.Content.Readability.{blank}
use ligp_v.Content.QualityGate.{
  unreadable, empty_body, missing_title, Issue, Content, Gate, occurs, banned, too_long, body_of,
  stage1_format, risk_of, hard_to_read, stage3_brand_safety, check, stage2_readability,
}

module _ {A : Type 0} where
  abbrev empty : List A → Bool
  empty [] = true
  empty (x ∷ xs) = false

  empty-append : (xs ys : List A) → empty (xs ++ ys) ≡ (empty xs && empty ys)
  empty-append [] ys = refl
  empty-append (x ∷ xs) ys = refl

  empty-if : (b : Bool) (x : A) → empty (if b then x ∷ [] else []) ≡ not b
  empty-if true x = refl
  empty-if false x = refl

  empty-unless : (b : Bool) (x : A) → empty (if b then [] else x ∷ []) ≡ b
  empty-unless true x = refl
  empty-unless false x = refl

both : {a b c d : Bool} → a ≡ b → c ≡ d → (a && c) ≡ (b && d)
both p q = λ i. p i && q i

nothing : {A : Type 0} (xs : List A) → empty xs ≡ true → xs ≡ []
nothing [] h = refl
nothing (x ∷ xs) h = absurd (ground arith)

-- A limit that is absent or 0 is none.
abbrev pub fits : Option ℕ → ℕ → Bool
fits none n = true
fits (some limit) n = leb limit 0 || leb n limit

module _ {C : Type 0} ⦃e : Eq C⦄ where
  abbrev pub clean : List (List C) → List C → Bool
  clean [] text = true
  clean (t ∷ terms) text = not (occurs t text) && clean terms text

  empty-banned :
      (terms : List (List C)) (text : List C) → empty (banned terms text) ≡ clean terms text
  unfolding banned
  empty-banned [] text = refl
  empty-banned (t ∷ terms) text = ground (arith, empty-banned terms text)

module _ {C : Type 0} where
  empty-too_long :
      (limit : Option ℕ) (n : ℕ) (issues : List (Issue C))
      → too_long limit n ≡ issues
      → empty issues ≡ fits limit n
  unfolding too_long
  empty-too_long none n issues h = ap empty (sym h)
  empty-too_long (some limit) n issues h = ap empty (sym h) ∙ ground arith

module _ {C : Type 0} ⦃k : Chars C⦄ ⦃e : Eq C⦄ where
  empty-stage1_format :
      (gate : Gate C) (content : Content C) (platform : String)
      → empty (stage1_format gate content platform) ≡ (
          not (blank (body_of content))
          && (not (blank (or_default content.title []))
              && fits (gate.max_chars platform) (length (body_of content))))
  unfolding stage1_format
  empty-stage1_format gate content platform =
      empty-append _ _
      ∙ both (empty-if {A = Issue C} (blank (body_of content)) empty_body) (
          empty-append _ _
          ∙ both (empty-if {A = Issue C} (blank (or_default content.title [])) missing_title)
              (empty-too_long {C = C} (gate.max_chars platform) (length (body_of content)) _ refl))

  empty-stage3_brand_safety :
      (gate : Gate C) (content : Content C)
      → empty (stage3_brand_safety gate content) ≡ (
          clean gate.banned_terms (k.lower (body_of content)) && is_safe 300 (risk_of gate content))
  unfolding stage3_brand_safety
  empty-stage3_brand_safety gate content =
      empty-append _ _
      ∙ both (empty-banned gate.banned_terms (k.lower (body_of content)))
          (empty-unless (is_safe 300 (risk_of gate content)) _)

  empty-issues :
      (gate : Gate C) (content : Content C) (platform : String)
      → empty (check gate content platform).1 ≡ (
          (not (blank (body_of content))
            && (not (blank (or_default content.title []))
                && fits (gate.max_chars platform) (length (body_of content))))
          && (not (hard_to_read gate content)
              && (clean gate.banned_terms (k.lower (body_of content))
                  && is_safe 300 (risk_of gate content))))
  unfolding check
  empty-issues gate content platform =
      empty-append _ _
      ∙ both (empty-stage1_format gate content platform) (
          empty-append _ _
          ∙ both
              (empty-if (hard_to_read gate content) (unreadable (stage2_readability gate content)))
              (empty-stage3_brand_safety gate content))

  passed :
      (gate : Gate C) (content : Content C) (platform : String)
      → (check gate content platform).0 ≡ empty (check gate content platform).1
  unfolding check
  passed gate content platform = refl

  -- The gate passes a content exactly if it reports no issue, and then exactly if the body and the
  -- title are not blank, the body fits the platform, it reads easily enough, no banned term occurs in
  -- it and its copyright risk is safe.
  pub check_lem :
      (gate : Gate C) (content : Content C) (platform : String)
      → ((check gate content platform).0 ≡ (
          (not (blank (body_of content))
            && (not (blank (or_default content.title []))
                && fits (gate.max_chars platform) (length (body_of content))))
          && (not (hard_to_read gate content)
              && (clean gate.banned_terms (k.lower (body_of content))
                  && is_safe 300 (risk_of gate content)))))
        × ((check gate content platform).0 ≡ true → (check gate content platform).1 ≡ [])
  check_lem gate content platform = (
    passed gate content platform ∙ empty-issues gate content platform,
    λ h. nothing (check gate content platform).1 (sym (passed gate content platform) ∙ h),
  )

  -- A content without a source and without a license never passes, whatever it says; the generators
  -- set neither.
  pub check_unattributed :
      (gate : Gate C) (content : Content C) (platform : String)
      → gate.low "" ≡ ""
      → content.source_url ≡ none
      → content.license ≡ none
      → (check gate content platform).0 ≡ false
  unfolding risk_of body_of
  check_unattributed gate content platform h no_source no_license =
      let unsafe : is_safe 300 (risk_of gate content) ≡ false = unattributed in
      ground (arith, (check_lem gate content platform).0)
    where
      unattributed : is_safe 300 (risk_of gate content) ≡ false
      unattributed =
          rw (no_source, no_license, risk_of) (score_unattributed gate.low (body_of content) h)

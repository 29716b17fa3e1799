-- ===== src/Content/Readability.antt =====
-- The reading ease of content_factory/quality_gate.py, as an exact fraction: the coefficients in
-- thousandths, over the words times the sentences. A difference of floats that is below 0 is 0 here,
-- and the code raises it to 0.
use ligp_v.Prelude.{
  ℕ, suc, ◌+◌, ◌-◌, ◌*◌, Bool, true, false, not, ◌&&◌, List, [], ◌∷◌, ◌++◌, leb, if◌then◌else◌, min,
  max, length,
}
use ligp_v.Compliance.Copyright.{Chars, Fraction}

module _ {C : Type 0} ⦃k : Chars C⦄ where
  -- `not s.strip()`
  unfoldable pub blank : List C → Bool
  blank [] = true
  blank (c ∷ cs) = k.is_space c && blank cs

  -- `_WORD_RE.findall(text)`: the runs of word characters, where `word` is the one being read.
  unfoldable pub close_word : List C → List (List C) → List (List C)
  close_word [] words = words
  close_word (c ∷ cs) words = (c ∷ cs) ∷ words

  unfoldable pub words_from : List C → List C → List (List C)
  words_from word [] = close_word word []
  words_from word (c ∷ cs) = elim (k.is_word c) [
    | true ↦ words_from (word ++ c ∷ []) cs
    | false ↦ close_word word (words_from [] cs)
  ]

  -- The pieces between the ends of sentences that are not blank; `open` says that the piece being
  -- read is not.
  unfoldable pub sentences_from : Bool → List C → ℕ
  sentences_from seen [] = if seen then 1 else 0
  sentences_from seen (c ∷ cs) = elim (k.is_stop c) [
    | true ↦ (if seen then 1 else 0) + sentences_from false cs
    | false ↦ elim (k.is_space c) [ true ↦ sentences_from seen cs | false ↦ sentences_from true cs ]
  ]

  -- The loop of `_count_syllables`: the vowels that do not follow a vowel.
  unfoldable pub vowel_groups : Bool → List C → ℕ
  vowel_groups prev_vowel [] = 0
  vowel_groups prev_vowel (c ∷ cs) =
      let rest = vowel_groups (k.is_vowel c) cs in
      if k.is_vowel c && not prev_vowel then suc rest else rest

  unfoldable pub count_syllables : List C → ℕ
  count_syllables word = max 1 (vowel_groups false (k.lower word))

  unfoldable pub syllables_of : List (List C) → ℕ
  syllables_of [] = 0
  syllables_of (w ∷ ws) = count_syllables w + syllables_of ws

-- `206.835 - 1.015 * words / sentences - 84.6 * syllables / words`, from 0 to 100.
unfoldable pub ease_of : ℕ → ℕ → ℕ → Fraction
ease_of n_words n_sentences syllables =
    let den = 1000 * (n_words * n_sentences) in
    if leb n_words 0 then record { num = 0; den = 1 } else record {
      num = min (100 * den) (
          206835 * (n_words * n_sentences)
          - (1015 * (n_words * n_words) + 84600 * (syllables * n_sentences)));
      den = den;
    }

module _ {C : Type 0} ⦃k : Chars C⦄ where
  unfoldable pub flesch_kincaid_reading_ease : List C → Fraction
  flesch_kincaid_reading_ease text =
      ease_of (length (words_from [] text)) (max 1 (sentences_from false text))
        (syllables_of (words_from [] text))

-- ===== src/Tests/Gate.antt =====
-- A gate over characters as numbers: 0 is a space, 1 a quotation mark, 2 a full stop, 3 a vowel.
use ligp_v.Prelude.{
  ℕ, ◌≡◌, refl, ◌&&◌, not, true, false, none, some, [], ◌∷◌, Eq, nat_beq, nat_beq_iff, leb, length,
  or_default,
}
use ligp_v.Compliance.Copyright.{Chars, is_safe}
use ligp_v.Content.Readability.{blank}
use ligp_v.Content.QualityGate.{Content, Gate, body_of, hard_to_read, risk_of, check}
use ligp_v.Content.QualityGate.Verdicts.{fits, clean, check_lem, check_unattributed}

instance abbrev codes : Chars ℕ
codes = record {
  is_quote = nat_beq 1;
  is_space = nat_beq 0;
  is_word = λ c. leb 3 c;
  is_stop = nat_beq 2;
  is_vowel = nat_beq 3;
  lower = λ cs. cs;
}

instance abbrev code_eq : Eq ℕ
code_eq = record { beq = nat_beq; beq_iff = nat_beq_iff }

abbrev gate : Gate ℕ
gate = record {
  readability_min = 60;
  banned_terms = (5 ∷ 6 ∷ []) ∷ [];
  max_chars = λ platform. some 9;
  textstat = none;
  low = λ s. s;
}

abbrev content : Content ℕ
content = record {
  body = some (4 ∷ 3 ∷ 0 ∷ 4 ∷ 3 ∷ 2 ∷ []);
  title = some (4 ∷ []);
  source_url = some "https://example.com";
  license = some "cc-by";
}

check_lem_example :
    ((check gate content "blog").0 ≡ (
      (not (blank (body_of content))
        && (not (blank (or_default content.title [])) && fits (some 9) (length (body_of content))))
      && (not (hard_to_read gate content)
          && (clean gate.banned_terms (body_of content) && is_safe 300 (risk_of gate content)))))
    × ((check gate content "blog").0 ≡ true → (check gate content "blog").1 ≡ [])
check_lem_example = check_lem gate content "blog"

abbrev generated : Content ℕ
generated = record content { source_url = none; license = none }

check_unattributed_example : (check gate generated "blog").0 ≡ false
check_unattributed_example = check_unattributed gate generated "blog" refl refl refl

-- ===== src/Compliance/Pii/Masking.antt =====
-- The masked text as a function of the detections, from left to right.
use mathlib.Core.List.{append_assoc}
use ligp_v.Prelude.{
  ℕ, zero, suc, ◌-◌, ◌≡◌, ◌≤◌, ◌<◌, refl, true, List, [], ◌∷◌, ◌++◌, arith, String, ltb, All,
  All-append, length, ap, take, drop, ◌∙◌, sym,
}
use ligp_v.Compliance.Pii.{
  Detection, insert_reverse, sort_reverse, detect_only, replace_all, token_of, mask,
}
use ligp_v.Compliance.Pii.Spans.{Chain, FitsIn, detect_only-Chain}

module _ {C : Type 0} where
  take-take :
      (s e : ℕ) (text rest : List C)
      → s ≤ e
      → e ≤ length text
      → take s (take e text ++ rest) ≡ take s text
  take-take zero e text rest h k = refl
  take-take (suc s) zero text rest h k = absurd (omega arith)
  take-take (suc s) (suc e) [] rest h k = absurd (omega arith)
  take-take (suc s) (suc e) (x ∷ xs) rest h k =
      ap (λ l. x ∷ l) (take-take s e xs rest (omega arith) (omega arith))

  drop-take : (e : ℕ) (text rest : List C) → e ≤ length text → drop e (take e text ++ rest) ≡ rest
  drop-take zero text rest h = refl
  drop-take (suc e) [] rest h = absurd (omega arith)
  drop-take (suc e) (x ∷ xs) rest h = drop-take e xs rest (omega arith)

  take_empty : (n : ℕ) → take {A = C} n [] ≡ []
  take_empty zero = refl
  take_empty (suc n) = refl

  take-drop :
      (p s : ℕ) (text : List C) → p ≤ s → take p text ++ take (s - p) (drop p text) ≡ take s text
  take-drop zero s text h = ap (λ n. take n text) (omega arith)
  take-drop (suc p) zero text h = absurd (omega arith)
  take-drop (suc p) (suc s) [] h = take_empty (suc s - suc p)
  take-drop (suc p) (suc s) (x ∷ xs) h =
      ap (λ l. x ∷ l)
        (ap (λ n. take p xs ++ take n (drop p xs)) (omega arith) ∙ take-drop p s xs (omega arith))

  take_split : (p : ℕ) (text : List C) → take p text ++ drop p text ≡ text
  take_split zero text = refl
  take_split (suc p) [] = refl
  take_split (suc p) (x ∷ xs) = ap (λ l. x ∷ l) (take_split p xs)

  -- The list from right to left.
  abbrev backward : List (Detection C) → List (Detection C)
  backward [] = []
  backward (d ∷ ds) = backward ds ++ d ∷ []

  -- A detection that starts before the others goes to the end.
  insert_reverse_last :
      (d : Detection C) (ds : List (Detection C))
      → All (λ x. d.start < x.start) ds
      → insert_reverse d ds ≡ ds ++ d ∷ []
  unfolding insert_reverse
  insert_reverse_last d [] h = refl
  insert_reverse_last d (x ∷ xs) (h, hs) =
      let before : ltb d.start x.start ≡ true = ground arith in
      rw before (ap (λ l. x ∷ l) (insert_reverse_last d xs hs))

  All-backward :
      (P : Detection C → Type 0) (ds : List (Detection C)) → All P ds → All P (backward ds)
  All-backward P [] h = tt
  All-backward P (d ∷ ds) (h, hs) =
      All-append P (backward ds) (d ∷ []) (All-backward P ds hs) (h, tt)

  starts :
      (q p limit : ℕ) (ds : List (Detection C))
      → q < p
      → Chain p limit ds
      → All (λ x. q < x.start) ds
  starts q p limit [] h c = tt
  starts q p limit (d ∷ ds) h (a, b, k, c) = (omega arith, starts q d.end limit ds (omega arith) c)

  sort_reverse-Chain :
      (p limit : ℕ) (ds : List (Detection C)) → Chain p limit ds → sort_reverse ds ≡ backward ds
  unfolding sort_reverse
  sort_reverse-Chain p limit [] c = refl
  sort_reverse-Chain p limit (d ∷ ds) (a, b, k, c) =
      ap (insert_reverse d) (sort_reverse-Chain d.end limit ds c)
      ∙ insert_reverse_last d (backward ds)
          (All-backward (λ x. d.start < x.start) ds (starts d.start d.end limit ds b c))

  module _ (chars : String → List C) where
    -- The text from a position on, with the tokens in the place of the detected spans.
    abbrev pub masked : ℕ → List C → List (Detection C) → List C
    masked p text [] = drop p text
    masked p text (d ∷ ds) =
        take (d.start - p) (drop p text) ++ (token_of chars d ++ masked d.end text ds)

    replace_all-append :
        (ds : List (Detection C)) (d : Detection C) (out : List C)
        → replace_all chars (ds ++ d ∷ []) out
          ≡ replace_all chars (d ∷ []) (replace_all chars ds out)
    unfolding replace_all
    replace_all-append [] d out = refl
    replace_all-append (x ∷ ds) d out = replace_all-append ds d _

    replace_all-masked :
        (p : ℕ) (text : List C) (ds : List (Detection C))
        → p ≤ length text
        → Chain p (length text) ds
        → replace_all chars (backward ds) text ≡ take p text ++ masked p text ds
    unfolding replace_all
    replace_all-masked p text [] h c = sym (take_split p text)
    replace_all-masked p text (d ∷ ds) h (a, b, k, c) =
        let later = replace_all-masked d.end text ds k c in
        let before : take d.start (take d.end text ++ masked d.end text ds)
            ≡ take p text ++ take (d.start - p) (drop p text) =
          take-take d.start d.end text (masked d.end text ds) (omega arith) k
          ∙ sym (take-drop p d.start text a) in
        replace_all-append (backward ds) d text
        ∙ ap (λ l. take d.start l ++ (token_of chars d ++ drop d.end l)) later
        ∙ ap (λ l. l ++ (token_of chars d ++ drop d.end (take d.end text ++ masked d.end text ds)))
            before
        ∙ append_assoc (take p text) (take (d.start - p) (drop p text)) _
        ∙ ap (λ l. take p text ++ (take (d.start - p) (drop p text) ++ (token_of chars d ++ l)))
            (drop-take d.end text (masked d.end text ds) k)

    -- If the patterns match non-empty spans within the text, `mask` gives the text in which each
    -- detected span is replaced by the token of its type and every other character stays, together
    -- with the detections.
    pub mask_lem :
        (finditer : String → List C → List (ℕ × ℕ)) (text : List C)
        → ((ptype : String) → All (FitsIn (length text)) (finditer ptype text))
        → mask finditer chars text
          ≡ (masked 0 text (detect_only finditer text), detect_only finditer text)
    unfolding mask
    mask_lem finditer text h =
        let c = detect_only-Chain finditer text h in
        let ds = detect_only finditer text in
        ap (λ l. (l, ds))
          (ap (λ l. replace_all chars l text) (sort_reverse-Chain 0 (length text) ds c)
            ∙ replace_all-masked 0 text ds (omega arith) c)

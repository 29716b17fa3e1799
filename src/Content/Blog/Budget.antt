-- ===== src/Content/Blog/Budget.antt =====
-- The spending of a generator over a series of orders, and the length of what it makes.
use ligp_v.Prelude.{
  ℕ, ◌≡◌, ◌≤◌, ◌⊎◌, inl, inr, refl, ◌∙◌, true, Option, none, some, List, [], ◌∷◌, String, arith,
  length, le→leb, take, length-take, All, nonempty, not, ◌||◌, Bool-cases, Option-cases,
}
use ligp_v.Content.Blog.{
  Node, Generator, Value, string, array, other, Parsed, Answer, object, no_object, Content,
  max_chars_of, cost_per_call, budget_ok, build_prompt, call_llm, template_fallback, cut_body,
  finish, tags_of, estimate_tokens, parsed_of, complete, generate, validate_length,
}

-- A request for content, with what the model does.
pub record Order : Type 0 where
  pub node : Node
  pub platform : String
  pub reply : String → Option (Option String)

abbrev pub WithinBudget : Generator → Type 0
WithinBudget g = g.cost_this_month ≤ g.budget

call_llm-WithinBudget :
    (reply : String → Option (Option String)) (prompt : String) (g : Generator)
    → WithinBudget g
    → WithinBudget (call_llm reply prompt g).0 × ((call_llm reply prompt g).0.budget ≡ g.budget)
unfolding call_llm budget_ok
call_llm-WithinBudget reply prompt g h = ground arith

-- A content that its platform takes.
abbrev pub FitsPlatform : {C : Type 0} → Content C → Type 0
FitsPlatform c = (validate_length c c.platform ≡ true) × (c.char_count ≡ length c.body)

-- An answer that makes `generate` raise: JSON that is no object, or an object whose body is neither a
-- text nor an empty array.
abbrev pub IsSpoiltBody : {C : Type 0} → Option (Value C) → Type 0
IsSpoiltBody none = ⊥
IsSpoiltBody (some (string t)) = ⊥
IsSpoiltBody (some (array [])) = ⊥
IsSpoiltBody (some (array (x ∷ xs))) = Unit
IsSpoiltBody (some (other json)) = Unit

abbrev pub IsSpoilt : {C : Type 0} → Option (Answer C) → Type 0
IsSpoilt none = ⊥
IsSpoilt (some (object parsed)) = IsSpoiltBody parsed.body
IsSpoilt (some no_object) = Unit

-- The text of a call is empty, or it is what the model has answered.
call_llm_text :
    (reply : String → Option (Option String)) (prompt : String) (g : Generator)
    → ((call_llm reply prompt g).1 ≡ "") ⊎ (reply prompt ≡ some (some (call_llm reply prompt g).1))
unfolding call_llm
call_llm_text reply prompt g = elim (Bool-cases (not (nonempty g.api_key) || not (budget_ok g))) [
  | inl blocked ↦ inl (rw (blocked, call_llm) refl)
  | inr open_way ↦ elim (Option-cases (reply prompt)) [
    | inl raised ↦ inl (rw (open_way, raised) refl)
    | inr (content, e) ↦ elim (Option-cases content) [
      | inl nothing ↦ inl (rw (open_way, e, nothing) refl)
      | inr (answer, said) ↦ inr (rw (open_way, e, said) refl)
    ]
  ]
]

-- Text that is not empty comes from the model.
answered :
    (reply : String → Option (Option String)) (prompt : String) (g : Generator)
    → nonempty (call_llm reply prompt g).1 ≡ true
    → reply prompt ≡ some (some (call_llm reply prompt g).1)
answered reply prompt g h = elim (call_llm_text reply prompt g) [
  | inl empty ↦ absurd (let x : nonempty "" ≡ true = rw empty at h in ground (arith, x))
  | inr said ↦ said
]

module _ {C : Type 0} (encoder : Option (List C → ℕ)) (words : List C → ℕ) where
  cut_cases :
      (n : ℕ) (v : Option (Value C))
      → ((body : List C) × (cut_body n v ≡ some body) × (length body ≤ n))
        ⊎ ((cut_body n v ≡ none) × IsSpoiltBody v)
  unfolding cut_body
  cut_cases n none = inl ([], refl, omega arith)
  cut_cases n (some (string t)) = inl (take n t, refl, omega (arith, length-take n t))
  cut_cases n (some (array [])) = inl ([], refl, omega arith)
  cut_cases n (some (array (x ∷ xs))) = inr (refl, tt)
  cut_cases n (some (other json)) = inr (refl, tt)

  -- How a content ends: it fits the platform that it was ordered for, or there is none, for a reason.
  abbrev Ends : String → Option (Content C) → Type 0 → Type 0
  Ends platform r Reason =
      ((c : Content C) × (r ≡ some c) × FitsPlatform c × (c.platform ≡ platform))
      ⊎ ((r ≡ none) × Reason)

  Ends-finish :
      (parsed : Parsed C) (platform : String) (node : Node)
      → Ends platform
          (finish encoder words (max_chars_of platform) parsed platform node)
          (IsSpoiltBody parsed.body)
  unfolding finish validate_length
  Ends-finish parsed platform node = elim (cut_cases (max_chars_of platform) parsed.body) [
    | inl (body, e, h) ↦ inl (
      record {
        parsed = parsed;
        body = body;
        platform = platform;
        tags = tags_of node;
        char_count = length body;
        token_count = estimate_tokens encoder words body;
      },
      rw (e, finish) refl,
      (le→leb (length body) (max_chars_of platform) h, refl),
      refl,
    )
    | inr (e, spoilt) ↦ inr (rw (e, finish) refl, spoilt)
  ]

  module _ (chars : String → List C) (parse : String → Option (Answer C)) where
    Ends-template :
        (out : String) (node : Node) (platform : String) (Reason : Type 0)
        → parsed_of chars parse out node ≡ some (template_fallback chars node)
        → Ends platform (complete chars parse encoder words out node platform) Reason
    unfolding complete template_fallback
    Ends-template out node platform Reason e =
        elim (Ends-finish (template_fallback chars node) platform node) [
          | inl (c, made, fits, same) ↦ inl (c, rw (e, complete) made, fits, same)
          | inr (raised, spoilt) ↦ absurd spoilt
        ]

    Ends-answer :
        (out : String) (node : Node) (platform : String) (a : Option (Answer C))
        → nonempty out ≡ true
        → parse out ≡ a
        → Ends platform
            (complete chars parse encoder words out node platform)
            ((nonempty out ≡ true) × IsSpoilt a)
    unfolding parsed_of complete
    Ends-answer out node platform none h e =
        Ends-template out node platform _ (ground (arith, h, e))
    Ends-answer out node platform (some no_object) h e = inr (ground (arith, h, e), (h, tt))
    Ends-answer out node platform (some (object parsed)) h e =
        elim (Ends-finish (record parsed { generator = "llm"; llm_cost = some cost_per_call })
          platform node) [
            | inl (c, made, fits, same) ↦ inl (c, ground (arith, h, e, made), fits, same)
            | inr (raised, spoilt) ↦ inr (ground (arith, h, e, raised), (h, spoilt))
          ]

    Ends-complete :
        (out : String) (node : Node) (platform : String)
        → Ends platform
            (complete chars parse encoder words out node platform)
            ((nonempty out ≡ true) × IsSpoilt (parse out))
    unfolding parsed_of
    Ends-complete out node platform = elim (Bool-cases (nonempty out)) [
      | inl said ↦ Ends-answer out node platform (parse out) said refl
      | inr silent ↦ Ends-template out node platform _ (ground (arith, silent))
    ]

    -- What the generation makes of an order: a content that fits, or an exception, and then the model
    -- has answered with JSON that makes it raise.
    abbrev pub Settles : Order → Option (Content C) → Type 0
    Settles o (some c) = FitsPlatform c × (c.platform ≡ o.platform)
    Settles o none =
        (answer : String) × (o.reply (build_prompt o.node) ≡ some (some answer))
        × IsSpoilt (parse answer)

    pub Settles-generate :
        (o : Order) (g : Generator)
        → Settles o (generate chars parse encoder words o.reply o.node o.platform g).1
    unfolding generate
    Settles-generate o g =
        let out = (call_llm o.reply (build_prompt o.node) g).1 in
        elim (Ends-complete out o.node o.platform) [
          | inl (c, made, fits, same) ↦ rw made (fits, same)
          | inr (raised, (said, spoilt)) ↦
              rw raised (out, answered o.reply (build_prompt o.node) g said, spoilt)
        ]

    -- What comes of a series of orders, each with its order, and the generator after it.
    abbrev pub series : List Order → Generator → Generator × List (Order × Option (Content C))
    series [] g = (g, [])
    series (o ∷ orders) g =
        let (g', c) = generate chars parse encoder words o.reply o.node o.platform g in
        let (h, cs) = series orders g' in (h, (o, c) ∷ cs)

    -- Over any series of orders, whatever the model answers and whichever of them raise, what a
    -- generator spends stays within its budget. Each order gives a content, which passes the length
    -- check of its platform and counts its characters right, or it raises, and then the model has
    -- answered with JSON that is no object, or whose body is neither a text nor an empty array.
    pub series_lem :
        (orders : List Order) (g : Generator)
        → WithinBudget g
        → WithinBudget (series orders g).0
          × ((series orders g).0.budget ≡ g.budget)
          × All (λ p. Settles p.0 p.1) (series orders g).1
    unfolding generate
    series_lem [] g h = (h, refl, tt)
    series_lem (o ∷ orders) g h =
        let (within, same) = call_llm-WithinBudget o.reply (build_prompt o.node) g h in
        let (w, b, all) = series_lem orders (call_llm o.reply (build_prompt o.node) g).0 within in
        (w, b ∙ same, (Settles-generate o g, all))

-- ===== src/Tests/Generation.antt =====
-- Merging of entities, and a series of two orders.
use ligp_v.Prelude.{
  Option, ℕ, ◌≡◌, none, some, List, [], ◌∷◌, String, arith, All, length, if◌then◌else◌, ◌==◌,
  string_eq,
}
use ligp_v.Dict.{keys}
use ligp_v.Nlp.Normalizer.{Entity, merge_loop, merge_duplicates}
use ligp_v.Nlp.Normalizer.Counts.{total, counted, times, has_key, merge_duplicates_lem}
use ligp_v.Content.Blog.{Node, Generator, Answer, object, string, other}
use ligp_v.Content.Blog.Budget.{Order, WithinBudget, Settles, series, series_lem}

abbrev same : String → String
same s = s

abbrev entities : List Entity
entities =
    record { qid = some "Q95"; canonical = some "Google"; aliases = none; count = some 2 }
    ∷ record { qid = some "Q95"; canonical = none; aliases = some ("google" ∷ []); count = none }
    ∷ []

merge_duplicates_lem_example :
    (total (merge_duplicates same entities) ≡ counted entities)
    × (times "Q95" (keys (merge_loop same entities []))
        ≡ (if has_key same "Q95" entities then 1 else 0))
merge_duplicates_lem_example = merge_duplicates_lem same entities "Q95"

abbrev node : Node
node = record { emotion = some "joy"; label = none; name = some "news"; tags = none }

abbrev order : Order
order = record { node = node; platform = "blog"; reply = λ prompt. some (some "answer") }

abbrev numeric : Order
numeric = record { node = node; platform = "blog"; reply = λ prompt. some (some "number") }

abbrev pub generator : Generator
generator = record { api_key = "key"; budget = 2; cost_this_month = 0 }

abbrev pub chars : String → List ℕ
chars s = 1 ∷ 2 ∷ []

abbrev pub parse : String → Option (Answer ℕ)
parse s = none

-- The first answer has a text for its body, the second a number.
abbrev parse_both : String → Option (Answer ℕ)
parse_both s = some (
    object (record {
      title = none;
      body = some (if s == "answer" then string (5 ∷ []) else other "7");
      cta = none;
      hashtags = none;
      generator = "";
      llm_cost = none;
    }))

series_lem_example :
    WithinBudget (series none length chars parse_both (order ∷ numeric ∷ []) generator).0
    × ((series none length chars parse_both (order ∷ numeric ∷ []) generator).0.budget ≡ 2)
    × All
        (λ p. Settles none length chars parse_both p.0 p.1)
        (series none length chars parse_both (order ∷ numeric ∷ []) generator).1
series_lem_example =
    series_lem none length chars parse_both (order ∷ numeric ∷ []) generator (omega arith)

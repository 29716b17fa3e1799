-- ===== src/Content/Blog.antt =====
-- `BlogGenerator` of content_factory/generators/blog_generator.py. Costs are in thousandths of a
-- dollar. A text that is cut is a list of characters, and `chars` gives those of a text. `reply` is
-- what the client of the model does with a prompt (`none` is an exception), and `parse` is
-- `json.loads` on its answer (`none` is a JSONDecodeError). `encoder` is tiktoken, where it is installed, and
-- `words` the number of words of a text.
pub mod Budget
use ligp_v.Prelude.{
  ℕ, ◌+◌, ◌*◌, ◌/◌, Bool, true, false, not, ◌||◌, Option, none, some, List, [], ◌∷◌, String, concat,
  if◌then◌else◌, leb, length, take, or_default, or_else, nonempty, string_eq, map, truthy,
}
use ligp_v.Dict.{Dict, get}

abbrev pub emotion_emoji : Dict String String
emotion_emoji =
    ("joy", "😊")
    ∷ ("anger", "😤")
    ∷ ("fear", "😨")
    ∷ ("sadness", "😢")
    ∷ ("surprise", "😲")
    ∷ ("disgust", "🤢")
    ∷ ("unknown", "📝")
    ∷ []

abbrev pub platform_max_chars : Dict String ℕ
platform_max_chars =
    ("naver_blog", 10000) ∷ ("wordpress", 20000) ∷ ("blog", 20000) ∷ ("default", 5000) ∷ []

abbrev pub cost_per_call : ℕ
cost_per_call = 1

-- The keys of a node that are read.
pub record Node : Type 0 where
  pub emotion : Option String
  pub label : Option String
  pub name : Option String
  pub tags : Option (List String)

pub record Generator : Type 0 where
  pub api_key : String
  pub budget : ℕ
  pub cost_this_month : ℕ

unfoldable pub init : Option String → ℕ → Generator
init api_key budget = record {
  api_key = or_default api_key "";
  budget = budget;
  cost_this_month = 0;
}

unfoldable pub budget_ok : Generator → Bool
budget_ok g = leb (g.cost_this_month + cost_per_call) g.budget

unfoldable pub joined : List String → String
joined [] = ""
joined (s ∷ []) = s
joined (s ∷ t ∷ ts) = concat s (concat ", " (joined (t ∷ ts)))

unfoldable pub texts : List String → String
texts [] = ""
texts (s ∷ ss) = concat s (texts ss)

abbrev pub emotion_of : Node → String
emotion_of node = or_default node.emotion "unknown"

abbrev pub emoji_of : Node → String
emoji_of node = or_default (get (emotion_of node) emotion_emoji) "📝"

-- `node.get("label") or node.get("name", default)`
abbrev pub label_of : String → Node → String
label_of default node = or_default (or_else node.label (some (or_default node.name default))) ""

abbrev pub tags_of : Node → List String
tags_of node = or_default node.tags []

unfoldable pub build_prompt : Node → String
build_prompt node = texts (
    "당신은 한국어 콘텐츠 마케터입니다.\n"
    ∷ "주제: "
    ∷ label_of "" node
    ∷ "\n"
    ∷ "감정: "
    ∷ emotion_of node
    ∷ " "
    ∷ emoji_of node
    ∷ "\n"
    ∷ "키워드: "
    ∷ joined (take 5 (tags_of node))
    ∷ "\n\n"
    ∷ "다음 구조로 블로그 포스트를 작성해주세요:\n"
    ∷ "1. 제목 (50자 이내, 감정 유발)\n"
    ∷ "2. 리드 문단 (100자, 핵심 요약)\n"
    ∷ "3. 본문 섹션 3개 (각 200자, H2 제목 포함)\n"
    ∷ "4. CTA (30자, 구독/공유 유도)\n"
    ∷ "5. 해시태그 5개\n\n"
    ∷ "응답 형식: JSON {'title': ..., 'body': ..., 'cta': ..., 'hashtags': [...]}"
    ∷ [])

unfoldable pub call_llm :
    (String → Option (Option String)) → String → Generator → Generator × String
call_llm reply prompt g =
    if not (nonempty g.api_key) || not (budget_ok g) then (g, "") else elim (reply prompt) [
      | none ↦ (g, "")
      | some content ↦
          (record g { cost_this_month = g.cost_this_month + cost_per_call }, or_default content "")
    ]

-- A value of JSON: a text, an array as the texts of its items, or a null, a number, a Boolean or an
-- object as its text.
pub data Value (C : Type 0) : Type 0 where
  string : List C → Value C
  array : List String → Value C
  other : String → Value C

-- What the model or the template gives, with the keys that an answer may lack.
pub record Parsed (C : Type 0) : Type 0 where
  pub title : Option (Value C)
  pub body : Option (Value C)
  pub cta : Option (Value C)
  pub hashtags : Option (Value C)
  pub generator : String
  pub llm_cost : Option ℕ

-- JSON that the model answers with: an object, or a value that is none.
pub data Answer (C : Type 0) : Type 0 where
  object : Parsed C → Answer C
  no_object : Answer C

pub record Content (C : Type 0) : Type 0 where
  pub parsed : Parsed C
  pub body : List C
  pub platform : String
  pub tags : List String
  pub char_count : ℕ
  pub token_count : ℕ

abbrev pub max_chars_of : String → ℕ
max_chars_of platform =
    or_default (get platform platform_max_chars)
      (or_default (get "default" platform_max_chars) 5000)

module _ {C : Type 0} where
  unfoldable pub template_fallback : (String → List C) → Node → Parsed C
  template_fallback chars node =
      let label = label_of "주제" node in
      let tags = tags_of node in
      record {
        title = some (
            string
              (take 50 (chars (texts (emoji_of node ∷ " " ∷ label ∷ " 완전 분석 — 알아야 할 모든 것" ∷ [])))));
        body = some (
            string (
              chars (
                texts (
                  "## "
                  ∷ label
                  ∷ "이란?\n\n"
                  ∷ label
                  ∷ "에 대한 최신 트렌드와 핵심 정보를 정리했습니다.\n\n"
                  ∷ "## 왜 중요한가?\n\n"
                  ∷ "현재 "
                  ∷ label
                  ∷ "은 많은 주목을 받고 있습니다. "
                  ∷ "특히 "
                  ∷ joined (take 3 tags)
                  ∷ " 측면에서 중요한 변화가 있습니다.\n\n"
                  ∷ "## 앞으로의 전망\n\n"
                  ∷ "전문가들은 "
                  ∷ label
                  ∷ "의 지속적인 성장을 예측하고 있습니다."
                  ∷ []))));
        cta = some (string (chars "구독하고 최신 트렌드를 놓치지 마세요!"));
        hashtags = some (array (map (λ t. concat "#" t) (take 5 tags)));
        generator = "template";
        llm_cost = none;
      }

  -- `estimate_tokens` of base_generator.py: words / 0.75, rounded down, and one.
  unfoldable pub estimate_tokens : Option (List C → ℕ) → (List C → ℕ) → List C → ℕ
  estimate_tokens encoder words [] = 0
  estimate_tokens none words (x ∷ text) = words (x ∷ text) * 4 / 3 + 1
  estimate_tokens (some encode) words (x ∷ text) = encode (x ∷ text)

  -- The body that is cut, `none` if the code raises: `[:max_chars]` of what is neither a text nor an
  -- array, or `estimate_tokens` of a non-empty array, which has no `split`. (`max_chars` is positive.)
  -- An empty array stays one, and counts as the empty text.
  unfoldable pub cut_body : ℕ → Option (Value C) → Option (List C)
  cut_body max_chars none = some []
  cut_body max_chars (some (string t)) = some (take max_chars t)
  cut_body max_chars (some (array [])) = some []
  cut_body max_chars (some (array (x ∷ xs))) = none
  cut_body max_chars (some (other json)) = none

  -- The rest of `generate_async`; `max_chars` is the limit of the platform.
  unfoldable pub finish :
      Option (List C → ℕ) → (List C → ℕ) → ℕ → Parsed C → String → Node → Option (Content C)
  finish encoder words max_chars parsed platform node = elim (cut_body max_chars parsed.body) [
    | none ↦ none
    | some body ↦ some (record {
      parsed = parsed;
      body = body;
      platform = platform;
      tags = tags_of node;
      char_count = length body;
      token_count = estimate_tokens encoder words body;
    })
  ]

  module _ (chars : String → List C) (parse : String → Option (Answer C)) where
    -- `none` is the TypeError of `parsed["generator"] = "llm"` on what is no object, which the handler
    -- of JSONDecodeError lets through.
    unfoldable pub parsed_of : String → Node → Option (Parsed C)
    parsed_of llm_output node =
        if not (nonempty llm_output)
        then some (template_fallback chars node)
        else elim (parse llm_output) [
          | none ↦ some (template_fallback chars node)
          | some (object parsed) ↦
              some (record parsed { generator = "llm"; llm_cost = some cost_per_call })
          | some no_object ↦ none
        ]

    -- `generate_async` after the call of the model.
    unfoldable pub complete :
        Option (List C → ℕ) → (List C → ℕ) → String → Node → String → Option (Content C)
    complete encoder words llm_output node platform = elim (parsed_of llm_output node) [
      | none ↦ none
      | some parsed ↦ finish encoder words (max_chars_of platform) parsed platform node
    ]

    -- `generate` and `generate_async`, `none` if they raise; the cost of a call stays.
    unfoldable pub generate :
        Option (List C → ℕ)
        → (List C → ℕ)
        → (String → Option (Option String))
        → Node
        → String
        → Generator
        → Generator × Option (Content C)
    generate encoder words reply node platform g =
        let (g', llm_output) = call_llm reply (build_prompt node) g in
        (g', complete encoder words llm_output node platform)

  unfoldable pub validate_length : Content C → String → Bool
  validate_length content platform = leb (length content.body) (max_chars_of platform)

-- ===== src/Nlp/Normalizer.antt =====
-- `EntityNormalizer` of nlp/entity_normalizer.py. `lower` is `str.lower`, `normal` is
-- `normalize_text`; the reading of an alias file is left out.
pub mod Counts
use ligp_v.Prelude.{
  ℕ, ◌+◌, Bool, Option, none, some, List, [], ◌∷◌, ◌++◌, String, if◌then◌else◌, or_default, truthy,
  string_eq, ◌==◌, contains,
}
use ligp_v.Dict.{Dict, get, put, values}
use text.Mathlib.Text.{is_lt}
use Prim.Native.String.{compare}

-- An entry of the alias map.
pub record Meta : Type 0 where
  pub qid : Option String
  pub canonical : Option String

abbrev pub default_aliases : Dict String Meta
default_aliases =
    ("openai", record { qid = some "Q21708200"; canonical = some "OpenAI" })
    ∷ ("open ai", record { qid = some "Q21708200"; canonical = some "OpenAI" })
    ∷ ("nvidia", record { qid = some "Q182477"; canonical = some "Nvidia" })
    ∷ ("google", record { qid = some "Q95"; canonical = some "Google" })
    ∷ ("alphabet inc", record { qid = some "Q20800404"; canonical = some "Alphabet Inc." })
    ∷ []

-- `dict(alias_map or _DEFAULT_ALIASES)`
unfoldable pub init : Option (Dict String Meta) → Dict String Meta
init none = default_aliases
init (some []) = default_aliases
init (some (p ∷ aliases)) = p ∷ aliases

-- An element put into a sorted list without repetition.
unfoldable pub insert_text : String → List String → List String
insert_text s [] = s ∷ []
insert_text s (t ∷ ts) =
    let rest = insert_text s ts in
    if s == t then t ∷ ts else if is_lt (compare s t) then s ∷ t ∷ ts else t ∷ rest

-- `sorted(set(...))`
unfoldable pub sorted_set : List String → List String
sorted_set [] = []
sorted_set (s ∷ ss) = insert_text s (sorted_set ss)

abbrev pub same_qid : Option String → Option String → Bool
same_qid none none = Bool.true
same_qid (some a) (some b) = a == b
same_qid _ _ = Bool.false

-- `s for s, m in self._aliases.items() if m.get("qid") == qid`
unfoldable pub surfaces : Option String → Dict String Meta → List String
surfaces qid [] = []
surfaces qid ((s, m) ∷ aliases) =
    let rest = surfaces qid aliases in if same_qid m.qid qid then s ∷ rest else rest

pub record Normalized : Type 0 where
  pub canonical : String
  pub qid : Option String
  pub aliases : List String

unfoldable pub normalize :
    (String → String) → (String → String) → String → Dict String Meta → Normalized
normalize normal lower entity aliases =
    let surface = normal entity in
    elim (get (lower surface) aliases) [
      | none ↦ record { canonical = surface; qid = none; aliases = surface ∷ [] }
      | some meta ↦ record {
        canonical = or_default meta.canonical surface;
        qid = meta.qid;
        aliases = sorted_set (surfaces meta.qid aliases);
      }
    ]

-- An entity of the list, with the keys it may lack.
pub record Entity : Type 0 where
  pub qid : Option String
  pub canonical : Option String
  pub aliases : Option (List String)
  pub count : Option ℕ

pub record Merged : Type 0 where
  pub canonical : String
  pub qid : Option String
  pub aliases : List String
  pub count : ℕ

abbrev pub count_of : Entity → ℕ
count_of ent = or_default ent.count 1

module _ (lower : String → String) where
  -- `qid or ent.get("canonical", "").lower()`
  unfoldable pub key_of : Entity → String
  key_of ent = if truthy ent.qid then or_default ent.qid "" else lower (or_default ent.canonical "")

  -- The body of the loop.
  unfoldable pub merge_one : Entity → Dict String Merged → Dict String Merged
  merge_one ent merged = elim (get (key_of ent) merged) [
    | none ↦
        put (key_of ent)
          (record {
            canonical = or_default ent.canonical "";
            qid = ent.qid;
            aliases = or_default ent.aliases [];
            count = count_of ent;
          })
          merged
    | some existing ↦
        put (key_of ent)
          (record existing {
            count = existing.count + count_of ent;
            aliases = sorted_set (existing.aliases ++ or_default ent.aliases []);
          })
          merged
  ]

  unfoldable pub merge_loop : List Entity → Dict String Merged → Dict String Merged
  merge_loop [] merged = merged
  merge_loop (ent ∷ entities) merged = merge_loop entities (merge_one ent merged)

  unfoldable pub merge_duplicates : List Entity → List Merged
  merge_duplicates entities = values (merge_loop entities [])

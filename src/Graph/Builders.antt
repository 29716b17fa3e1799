-- ===== src/Graph/Builders.antt =====
-- graph/node_builder.py and graph/edge_builder.py, with weights in hundredths. `make_node_id` is that
-- of utils/helpers.py, `configured` the block `edge_default_weights` of the configuration, and `now`
-- the default of `created_at`.
pub mod Acceptance
use ligp_v.Prelude.{
  ℕ, Bool, true, false, not, Option, none, some, List, [], ◌∷◌, if◌then◌else◌, String, or_default,
  or_else, contains, string_eq,
}
use ligp_v.Dict.{Dict, get, put}
use ligp_v.Graph.Store.{Node, Edge, Result, ok, raise, value_error, node_types, relation_types}

abbrev pub fallback_defaults : Dict String ℕ
fallback_defaults =
    ("related_to", 50)
    ∷ ("causes", 80)
    ∷ ("similar_to", 40)
    ∷ ("leads_to", 60)
    ∷ ("monetizes_via", 90)
    ∷ ("triggers_emotion", 70)
    ∷ ("belongs_to_event", 65)
    ∷ []

-- `{**base, **extra}`
unfoldable pub merged : Dict String ℕ → Dict String ℕ → Dict String ℕ
merged base [] = base
merged base ((k, v) ∷ extra) = merged (put k v base) extra

-- `_defaults`; `none` is a configuration that cannot be loaded.
unfoldable pub defaults : Option (Dict String ℕ) → Dict String ℕ
defaults none = fallback_defaults
defaults (some configured) = merged fallback_defaults configured

unfoldable pub default_weight : Option (Dict String ℕ) → String → ℕ
default_weight configured relation_type = or_default (get relation_type (defaults configured)) 50

unfoldable pub build_edge :
    Option (Dict String ℕ) → String → String → String → Option ℕ → Result (Edge ℕ)
build_edge configured from_node to_node relation_type weight =
    if not (contains relation_types relation_type)
    then raise value_error
    else ok (record {
      from_node = from_node;
      to_node = to_node;
      relation_type = relation_type;
      weight = or_default weight (default_weight configured relation_type);
    })

unfoldable pub build_node :
    (String → String → String) → String → String → String → ℕ → Dict String ℕ → Result (Node ℕ)
build_node make_node_id now node_type name weight attrs =
    if not (contains node_types node_type)
    then raise value_error
    else ok (record {
      id = make_node_id node_type name;
      type = node_type;
      name = name;
      weight = weight;
      embedding = none;
      created_at = now;
      attrs = attrs;
    })

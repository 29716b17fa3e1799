-- ===== src/Orchestration/Daily/Stages.antt =====
-- The stages of the daily pipeline, one by one.
use ligp_v.Prelude.{
  ℕ, ◌+◌, ◌≡◌, ◌≤◌, refl, ◌∙◌, true, none, some, List, [], ◌∷◌, String, length, arith, ap,
  Bool-cases, Option-cases, Option, ◌⊎◌, inl, inr, string_eq, contains,
}
use ligp_v.Dict.{member, beq_refl}
use ligp_v.Graph.Weights.{nat_weighing}
use ligp_v.Graph.Store.{Node, Edge, GraphStore, ok, add_node, add_edge, node_types, relation_types}
use ligp_v.Graph.Store.Upsert.{add_edge_written}
use ligp_v.Graph.Store.Valid.{IsWell, add_node-IsWell, add_edge-IsWell, member-add_node}
use ligp_v.Graph.Store.Errors.{Result-cases, error_of, error-add_edge}
use ligp_v.Processing.Deduplicator.{Deduplicator, is_duplicate}
use ligp_v.Processing.Deduplicator.Memory.{Indexed, is_duplicate_again}
use ligp_v.Orchestration.Realtime.{Document, text_of, topic_node}
use ligp_v.Orchestration.Realtime.Run.{accepted}
use ligp_v.Orchestration.Daily.{Mention, key_of, unique_from, mention_node, add_mentions, build}

module _ (tokens : String → List String) (normal : String → String) (hash64 : String → ℕ)
    (hash : List ℕ → ℕ) (content_hash : String → String) (doc_key : ℕ → String) where
  -- The deduplication does not raise and drops documents only.
  pub unique_from_lem :
      (i : ℕ) (documents : List Document) (d : Deduplicator)
      → Indexed d.lsh
      → (unique : List Document) × (unique_from
            (is_duplicate tokens normal hash64 hash content_hash)
            doc_key
            i
            documents
            d
          ≡ some unique)
        × (length unique ≤ length documents)
  unfolding unique_from
  unique_from_lem i [] d ix = ([], refl, omega arith)
  unique_from_lem i (doc ∷ documents) d ix =
      let key = key_of doc_key i doc in
      let (d', b, answer, again, ix') =
        is_duplicate_again tokens normal hash64 hash content_hash key key (text_of doc) d ix in
      let (rest, runs, h) = unique_from_lem (i + 1) documents d' ix' in
      elim (Bool-cases b) [
        | inl seen ↦ (rest, ground (arith, answer, runs, seen), omega arith)
        | inr fresh ↦ (doc ∷ rest, ground (arith, answer, runs, fresh), omega arith)
      ]

-- An edge with a relation of the schema between two nodes is accepted.
add_related :
    (e : Edge ℕ) (g : GraphStore ℕ)
    → IsWell g
    → e.relation_type ≡ "related_to"
    → member e.from_node g.nodes ≡ true
    → member e.to_node g.nodes ≡ true
    → (g' : GraphStore ℕ) × (add_edge e g ≡ ok g')
add_related e g w rel from to =
    let known : contains relation_types e.relation_type ≡ true = rw rel refl in
    let fine : error_of (add_edge e g) ≡ none = error-add_edge e g w ∙ rw (known, from, to) refl in
    elim (Result-cases (add_edge e g)) [
      | inl (x, raised) ↦ absurd (ground (arith, fine, raised))
      | inr (g', added) ↦ (g', added)
    ]

module _ (node_id : String → String → String) (now : String) where
  mention_type : (ent : Mention) → contains node_types (mention_node node_id now ent).type ≡ true
  unfolding mention_node
  mention_type ent = refl

  topic_type : (doc : Document) → contains node_types (topic_node node_id now doc).type ≡ true
  unfolding topic_node
  topic_type doc = refl

  member-accepted :
      (n : Node ℕ) (g g' : GraphStore ℕ) → add_node n g ≡ ok g' → member n.id g'.nodes ≡ true
  member-accepted n g g' added = member-add_node n g g' n.id added ∙ ground (arith, beq_refl n.id)

  -- The mentions of a topic that is there are all added.
  add_mentions_lem :
      (topic_id : String) (ents : List Mention) (g : GraphStore ℕ)
      → IsWell g
      → member topic_id g.nodes ≡ true
      → (g' : GraphStore ℕ) × (add_mentions node_id now topic_id ents g ≡ some g') × IsWell g'
  unfolding add_mentions
  add_mentions_lem topic_id [] g w there = (g, refl, w)
  add_mentions_lem topic_id (ent ∷ ents) g w there =
      let node = mention_node node_id now ent in
      let (h, added) = accepted node g (mention_type ent) in
      let wh = add_node-IsWell node g h added w in
      let still : member topic_id h.nodes ≡ true =
        member-add_node node g h topic_id added ∙ ground (arith, there) in
      let edge : Edge ℕ = record {
        from_node = topic_id;
        to_node = node.id;
        relation_type = "related_to";
        weight = 50;
      } in
      let (k, linked) = add_related edge h wh refl still (member-accepted node g h added) in
      let (es, here, written, same, rel, end) = add_edge_written edge h k linked in
      let (g', runs, w') =
        add_mentions_lem topic_id ents k (add_edge-IsWell edge h k linked wh)
          (ap (λ d. member topic_id d) same ∙ still) in
      (g', rw (added, linked, add_mentions) runs, w')

  -- On a well-formed store the graph build leaves one, unless the extractor raises on a text.
  pub build_lem :
      (extract : String → Option (List Mention)) (unique : List Document) (g : GraphStore ℕ)
      → IsWell g
      → ((g' : GraphStore ℕ) × (build node_id now extract unique g ≡ some g') × IsWell g')
        ⊎ ((text : String) × (extract text ≡ none) × (build node_id now extract unique g ≡ none))
  unfolding build
  build_lem extract [] g w = inl (g, refl, w)
  build_lem extract (doc ∷ unique) g w =
      let node = topic_node node_id now doc in
      let (h, added) = accepted node g (topic_type doc) in
      let wh = add_node-IsWell node g h added w in
      elim (Option-cases (extract (text_of doc))) [
        | inl raised ↦ inr (text_of doc, raised, rw (added, raised, build) refl)
        | inr (ents, found) ↦
            let (k, linked, wk) =
              add_mentions_lem node.id ents h wh (member-accepted node g h added) in
            elim (build_lem extract unique k wk) [
              | inl (g', runs, w') ↦ inl (g', rw (added, found, linked, build) runs, w')
              | inr (text, raised, stops) ↦
                  inr (text, raised, rw (added, found, linked, build) stops)
            ]
      ]

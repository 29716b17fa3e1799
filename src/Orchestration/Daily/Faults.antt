-- ===== src/Orchestration/Daily/Faults.antt =====
-- The stages of a daily run that may raise, each with the reason if it does.
use ligp_v.Prelude.{
  ℕ, ◌≡◌, ◌⊎◌, inl, inr, refl, Bool, false, none, some, List, [], ◌∷◌, String, length, ap, All, suc,
  Bool-cases, Option-cases,
}
use ligp_v.Graph.Weights.{nat_weighing}
use ligp_v.Graph.Store.{GraphStore, empty}
use ligp_v.Graph.Store.Valid.{empty-IsWell}
use ligp_v.Decision.Selector.{Candidate}
use ligp_v.Ingestion.Bootstrap.{bootstrap}
use ligp_v.Ingestion.Bootstrap.Once.{bootstrap-IsWell}
use ligp_v.Content.Blog
use ligp_v.Content.Blog.{Generator, Content, generate, build_prompt}
use ligp_v.Content.Blog.Budget.{FitsPlatform, Order, IsSpoilt, Settles-generate}
use ligp_v.Api.Metrics.{Metrics, record_content_generated}
use ligp_v.Orchestration.Daily.{
  Env, Raw, graph_of, produce, blog_node, candidates_from, candidate_of, evaluate, finals,
}
use ligp_v.Orchestration.Realtime.{Document}
use ligp_v.Orchestration.Daily.Stages.{build_lem}

-- Why a run raises: the seed files do not load, or a part raises on what it is given, or the model
-- answers with JSON that the generator does not take.
pub data Fault {C : Type 0} (env : Env C) (platform : String) : Type 0 where
  seeds :
      (bootstrap env.configured env.seed_nodes env.seed_edges false empty).1 ≡ false
      → Fault env platform
  extractor : (text : String) → env.extract text ≡ none → Fault env platform
  ranking : (g : GraphStore ℕ) → env.centrality g ≡ none → Fault env platform
  scoring : (raw : List Raw) → env.batch_compute raw ≡ none → Fault env platform
  revenues : (id : String) → env.revenue id platform ≡ none → Fault env platform
  generation :
      (node : Blog.Node) (answer : String)
      → env.reply (build_prompt node) ≡ some (some answer)
      → IsSpoilt (env.parse answer)
      → Fault env platform
  gate : (content : Content C) → env.check content platform ≡ none → Fault env platform

-- The graph build succeeds, or there is a fault.
pub graph_of_lem :
    {C : Type 0} (env : Env C) (platform : String) (unique : List Document)
    → ((g : GraphStore ℕ) × (graph_of env unique ≡ some g))
      ⊎ ((graph_of env unique ≡ none) × Fault env platform)
unfolding graph_of
graph_of_lem env platform unique =
    let seeded = bootstrap env.configured env.seed_nodes env.seed_edges false empty in
    let w =
      bootstrap-IsWell env.configured env.seed_nodes env.seed_edges false empty empty-IsWell in
    elim (Bool-cases seeded.1) [
      | inr missing ↦ inr (rw missing refl, seeds missing)
      | inl there ↦ elim (build_lem env.node_id env.now env.extract unique seeded.0 w) [
        | inl (g, grown, w') ↦ inl (g, rw there grown)
        | inr (text, raised, stops) ↦ inr (rw there stops, extractor text raised)
      ]
    ]

finals_lem :
    {C : Type 0} (env : Env C) (platform : String) (ordered : List (String × ℕ))
    → ((cs : List (Candidate ℕ)) × (finals env.revenue platform ordered ≡ some cs))
      ⊎ ((finals env.revenue platform ordered ≡ none) × Fault env platform)
unfolding finals
finals_lem env platform [] = inl ([], refl)
finals_lem env platform ((id, score) ∷ rest) = elim (Option-cases (env.revenue id platform)) [
  | inl raised ↦ inr (rw (raised, finals) refl, revenues id raised)
  | inr (r, e) ↦ elim (finals_lem env platform rest) [
    | inl (cs, runs) ↦ inl (candidate_of id score ∷ cs, rw (e, runs, finals) refl)
    | inr (stops, fault) ↦ inr (rw (e, stops, finals) refl, fault)
  ]
]

pub evaluate_lem :
    {C : Type 0} (env : Env C) (platform : String) (g : GraphStore ℕ)
    → ((cs : List (Candidate ℕ)) × (evaluate env platform g ≡ some cs))
      ⊎ ((evaluate env platform g ≡ none) × Fault env platform)
unfolding evaluate
evaluate_lem env platform g = elim (Option-cases (env.centrality g)) [
  | inl raised ↦ inr (rw (raised, evaluate) refl, ranking g raised)
  | inr (cents, e) ↦ elim (Option-cases (env.batch_compute (candidates_from g cents))) [
    | inl raised ↦ inr (rw (e, raised, evaluate) refl, scoring (candidates_from g cents) raised)
    | inr (ranks, k) ↦ elim (finals_lem env platform ranks) [
      | inl (cs, runs) ↦ inl (cs, rw (e, k, evaluate) runs)
      | inr (stops, fault) ↦ inr (rw (e, k, evaluate) stops, fault)
    ]
  ]
]

module _ {C D : Type 0} (env : Env C) (installed : Bool) where
  -- The contents, one for each candidate, or a fault.
  pub produce_lem :
      (g : GraphStore ℕ) (platform : String) (selected : List (Candidate ℕ)) (gen : Generator)
      (m : Metrics D)
      → ((m' : Metrics D) × (outputs : List (Content C × Bool)) × (produce env installed g platform
              selected gen m
            ≡ (m', some outputs))
          × (length outputs ≡ length selected)
          × All (λ p. FitsPlatform p.0) outputs)
        ⊎ ((m' : Metrics D) × (produce env installed g platform selected gen m ≡ (m', none))
            × Fault env platform)
  unfolding produce
  produce_lem g platform [] gen m = inl (m, [], refl, refl, tt)
  produce_lem g platform (cand ∷ selected) gen m =
      let node = blog_node g cand in
      let order : Order = record { node = node; platform = platform; reply = env.reply } in
      let made = generate env.chars env.parse env.encoder env.words env.reply node platform gen in
      let settled = Settles-generate env.encoder env.words env.chars env.parse order gen in
      elim (Option-cases made.1) [
        | inl raised ↦
            let (answer, said, spoilt) = rw raised at settled in
            inr (m, rw (raised, produce) refl, generation node answer said spoilt)
        | inr (content, e) ↦
            let (fits, same) = rw e at settled in
            elim (Option-cases (env.check content platform)) [
              | inl raised ↦ inr (m, rw (e, raised, produce) refl, gate content raised)
              | inr (passed, k) ↦
                  elim (produce_lem g platform selected made.0
                    (record_content_generated installed platform passed m)) [
                      | inl (m', outputs, runs, size, all) ↦ inl (
                        m',
                        (content, passed) ∷ outputs,
                        rw (e, k, runs, produce) refl,
                        ap suc size,
                        (fits, all),
                      )
                      | inr (m', stops, fault) ↦ inr (m', rw (e, k, stops, produce) refl, fault)
                    ]
            ]
      ]

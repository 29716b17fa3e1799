-- ===== src/Api/Admin/Queue.antt =====
-- The content queue, its counts and the summary of api/admin/data.py.
use ligp_v.Prelude.{
  ℕ, zero, suc, ◌+◌, ◌%◌, Option, List, [], ◌∷◌, if◌then◌else◌, String, ltb, length, or_default,
  concat,
}
use ligp_v.Dict.{Dict}
use ligp_v.Graph.Weights.{Weighing}
use ligp_v.Api.Admin.{
  Db, answers, not_configured, raises, GraphData, PathRow, Stats, tally, sorted_items,
  top_revenue_paths,
}

abbrev pub statuses : List String
statuses = "draft" ∷ "in_review" ∷ "approved" ∷ "published" ∷ []

abbrev pub channels : List String
channels = "blog" ∷ "youtube" ∷ "newsletter" ∷ "instagram" ∷ []

-- `l[i]`, which is within the list here.
unfoldable pub item_at : List String → ℕ → String
item_at [] i = ""
item_at (x ∷ xs) zero = x
item_at (x ∷ xs) (suc i) = item_at xs i

pub record Item (W : Type 0) : Type 0 where
  pub id : String
  pub title : String
  pub channel : String
  pub status : String
  pub quality_score : W

pub record Totals : Type 0 where
  pub total : ℕ
  pub by_status : Dict String ℕ

-- `label` is how an id is printed from a number, `text` how an f-string prints a name, and `quality`
-- what the code makes of a weight.
module _ {W : Type 0} (label : ℕ → String) (text : Option String → String) (quality : W → W) where
  unfoldable pub queue_from : ℕ → List (PathRow W) → List (Item W)
  queue_from idx [] = []
  queue_from idx (path ∷ paths) =
      record {
        id = label (idx + 1);
        title = concat (text path.source) (concat " → " (text path.target));
        channel = item_at channels (idx % 4);
        status = item_at statuses (idx % 4);
        quality_score = quality path.weight;
      }
      ∷ queue_from (idx + 1) paths

  module _ ⦃o : Weighing W⦄ where
    unfoldable pub content_queue : W → Db (GraphData W) → GraphData W → List (Item W)
    content_queue nought db seed = queue_from 0 (top_revenue_paths nought db seed 4)

module _ {W : Type 0} where
  abbrev pub statuses_of : List (Item W) → List String
  statuses_of [] = []
  statuses_of (x ∷ xs) = x.status ∷ statuses_of xs

  -- `counts` is what the database answers to `ContentRepository.counts`.
  unfoldable pub content_stats : Db Totals → List (Item W) → Totals
  content_stats counts items =
      let fallback : Totals = record {
        total = length items;
        by_status = sorted_items (tally (statuses_of items) []);
      } in
      elim counts [
        | answers c ↦ if ltb 0 c.total then c else fallback
        | not_configured ↦ fallback
        | raises ↦ fallback
      ]

-- `dashboard_summary`, with the values of the configuration that it reads.
pub record Summary : Type 0 where
  pub app_name : String
  pub app_version : String
  pub graph_backend : String
  pub node_count : ℕ
  pub edge_count : ℕ
  pub phase : String

unfoldable pub dashboard_summary : Option String → Option String → Option String → Stats → Summary
dashboard_summary name version backend stats = record {
  app_name = or_default name "iigp";
  app_version = or_default version "2.0.0";
  graph_backend = or_default backend "networkx";
  node_count = stats.node_count;
  edge_count = stats.edge_count;
  phase = "Phase 8 — Observability & Admin";
}

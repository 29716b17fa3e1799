-- ===== src/Tests/Api.antt =====
-- Requests, metrics and jobs on concrete inputs.
use ligp_v.Prelude.{
  ℕ, ◌+◌, ◌≡◌, refl, true, not, ◌&&◌, none, some, List, [], ◌∷◌, if◌then◌else◌, String, nonempty,
  string_eq, ◌==◌, inl,
}
use ligp_v.Dict.{get}
use ligp_v.Api.Auth
use ligp_v.Api.Auth.{is_public, forwarded, unauthorized}
use ligp_v.Api.Auth.Verdicts.{request_key, key_in_force, call_lem}
use ligp_v.Api.Metrics
use ligp_v.Prelude.Int.{pos}
use ligp_v.Api.Metrics.{
  Metrics, observe, track_in_progress, snapshot, record_content_generated, record_pipeline_run,
  record_graph_size,
}
use ligp_v.Api.Metrics.Middleware
use ligp_v.Api.Metrics.Middleware.{
  Message, Ending, raised, normalize_path, status_after, progress, requests, call_balanced,
}
use ligp_v.Api.Content.{Row, Request, NodeRef, node_of, Generated, State, process_content}
use ligp_v.Api.Content.Lifecycle.{row_of, final_row, process_content_lem}

abbrev same : String → String
same text = text

-- A request for a protected path with a wrong key.
abbrev intruder : Auth.Scope
intruder = record {
  type = some "http";
  path = some "/content/generate";
  headers = ("x-api-key", "guess") ∷ [];
}

call_lem_example : (Auth.call same (some "secret") none intruder).1 ≡ (
    if (◌==◌ {K = String} "http" "http" && not (is_public "/content/generate"))
      && (nonempty (key_in_force (some "secret") none)
          && not (request_key same intruder == key_in_force (some "secret") none))
    then unauthorized
    else forwarded)
call_lem_example = call_lem same (some "secret") none intruder

abbrev started : Metrics ℕ
started = record Metrics.init { available = true }

-- An application that sends a status and then raises.
abbrev app : Middleware.Scope → ℕ → Metrics ℕ → (Ending × List Message) × (ℕ × Metrics ℕ)
app scope s m =
    ((raised, record { type = some "http.response.start"; status = some 404 } ∷ []), (s + 2, m))

abbrev duration : ℕ → ℕ → ℕ
duration s s' = 2

abbrev visit : Middleware.Scope
visit = record { type = some "http"; method = none; route = none; path = some "/ready" }

call_balanced_example :
    ((Middleware.call duration app visit 5 started).0
      ≡ (app visit 5 (track_in_progress "GET" (normalize_path visit) (pos 1) started)).0)
    × (progress "GET" (normalize_path visit) (Middleware.call duration app visit 5 started).1.1
        ≡ progress "GET" (normalize_path visit) started)
    × (requests "GET"
          (normalize_path visit)
          (status_after 500
            (app visit 5 (track_in_progress "GET" (normalize_path visit) (pos 1) started)).0.1)
          (Middleware.call duration app visit 5 started).1.1
        ≡ requests "GET"
            (normalize_path visit)
            (status_after 500
              (app visit 5 (track_in_progress "GET" (normalize_path visit) (pos 1) started)).0.1)
            started
          + 1)
call_balanced_example =
    call_balanced duration app visit 5 started refl refl (λ s m. (refl, refl, refl))

abbrev row : Row
row = record {
  title = "[pending] n1";
  body = "";
  platform = "blog";
  status = "pending";
  payload = some "{}";
}

abbrev state : State ℕ
state = record {
  db = record { configured = true; outages = []; rows = ("c1", row) ∷ [] };
  metrics = started;
}

abbrev generate : NodeRef → String → Generated ℕ
generate node platform = inl (3, true)

abbrev dumps : ℕ → String
dumps n = "content"

abbrev request : Request
request = record { node_id = "n1"; name = ""; platform = ""; tags = [] }

process_content_lem_example :
    row_of "c1" (process_content generate dumps same true "c1" request state).db ≡ (
      if ◌==◌ {K = String} "c1" "c1"
      then some (final_row dumps same (generate (node_of request) request.platform) row)
      else row_of "c1" state.db)
unfolding get
process_content_lem_example =
    process_content_lem generate dumps same true "c1" "c1" request state row (refl, refl) refl

-- ===== src/Api/Content.antt =====
-- The jobs of api/routes/content.py and of orchestration/tasks.py, over the content table of
-- database/repositories/content_repo.py. A call of the repository may fail: `outages` says of the
-- next calls whether they do, and all later ones work. The generator with the quality gate is the
-- parameter `generate`, and `dumps` are the two calls of `json.dumps`.
pub mod Lifecycle
use ligp_v.Prelude.{
  ℕ, ◌+◌, Bool, true, false, not, ◌||◌, ◌&&◌, Option, none, some, List, [], ◌∷◌, arith,
  if◌then◌else◌, String, or_default, nonempty, truthy, concat, ◌⊎◌, inl, inr, string_eq, is_some,
}
use ligp_v.Dict.{Dict, get, put, member}
use ligp_v.Api.Metrics.{Metrics, record_content_generated}

-- A row of the content table, as far as the jobs write it.
pub record Row : Type 0 where
  pub title : String
  pub body : String
  pub platform : String
  pub status : String
  pub payload : Option String

-- `configured` says that DATABASE_URL is set.
pub record Database : Type 0 where
  pub configured : Bool
  pub outages : List Bool
  pub rows : Dict String Row

-- `_repo()`, a call, and `close`: nothing without a database, and an exception is swallowed.
unfoldable pub with_repo : (Dict String Row → Dict String Row) → Database → Database
with_repo f db = if not db.configured then db else elim db.outages [
  | [] ↦ record db { rows = f db.rows }
  | true ∷ outages ↦ record db { outages = outages }
  | false ∷ outages ↦ record db { outages = outages; rows = f db.rows }
]

-- `ContentRepository.save`: INSERT, which a row with that key refuses.
unfoldable pub save : String → Row → Dict String Row → Dict String Row
save content_id row rows = if member content_id rows then rows else put content_id row rows

-- `ContentRepository.update_status`: UPDATE of the row if there is one, with COALESCE on `payload`.
unfoldable pub set_status :
    String → String → Option String → Option String → Dict String Row → Dict String Row
set_status content_id status result error rows = elim (get content_id rows) [
  | none ↦ rows
  | some row ↦
      let given : Option String = elim result [ some r ↦ some r | none ↦ error ] in
      put content_id
        (record row {
          status = status;
          payload = elim given [ some p ↦ some p | none ↦ row.payload ];
        })
        rows
]

-- `json.dumps` of the row that is inserted is the argument `payload`.
unfoldable pub persist_pending : String → String → String → String → Database → Database
persist_pending content_id title platform payload db =
    with_repo
      (save content_id (record {
        title = title;
        body = "";
        platform = platform;
        status = "pending";
        payload = some payload;
      }))
      db

unfoldable pub update_status : String → String → Option String → Option String → Database → Database
update_status content_id status result error db =
    with_repo (set_status content_id status result error) db

-- `GenerateRequest`
pub record Request : Type 0 where
  pub node_id : String
  pub name : String
  pub platform : String
  pub tags : List String

-- The node that is generated from: `name or node_id`.
pub record NodeRef : Type 0 where
  pub id : String
  pub name : String
  pub tags : List String

abbrev pub node_of : Request → NodeRef
node_of req = record {
  id = req.node_id;
  name = if nonempty req.name then req.name else req.node_id;
  tags = req.tags;
}

-- `platform or "blog"` of tasks.py; the other entries are read as they are.
abbrev pub task_request : Request → Request
task_request req = record req { platform = if nonempty req.platform then req.platform else "blog" }

-- What generation and gate give: the content with its quality entries and whether it passed, or the
-- text of an exception.
abbrev pub Generated : Type 0 → Type 0
Generated C = (C × Bool) ⊎ String

pub record State (D : Type 0) : Type 0 where
  pub db : Database
  pub metrics : Metrics D

module _ {C D : Type 0} (generate : NodeRef → String → Generated C) (dumps : C → String)
    (dumps_error : String → String) (installed : Bool) where
  -- `_process_content`
  unfoldable pub process_content : String → Request → State D → State D
  process_content content_id req s =
      let db = update_status content_id "processing" none none s.db in
      elim (generate (node_of req) req.platform) [
        | inl (content, passed) ↦ record {
          db = update_status content_id "completed" (some (dumps content)) none db;
          metrics = record_content_generated installed req.platform passed s.metrics;
        }
        | inr e ↦ record s { db = update_status content_id "failed" none (some (dumps_error e)) db }
      ]

  -- `_generate_sync`: the state, and the exception that it lets through.
  unfoldable pub generate_sync : String → Request → State D → State D × Option String
  generate_sync content_id req_data s =
      let req = task_request req_data in
      let db = update_status content_id "processing" none none s.db in
      elim (generate (node_of req) req.platform) [
        | inl (content, passed) ↦ (
          record {
            db = update_status content_id "completed" (some (dumps content)) none db;
            metrics = record_content_generated installed req.platform passed s.metrics;
          },
          none,
        )
        | inr e ↦ (record s { db = db }, some e)
      ]

  -- `DatabaseAlertTask.on_failure`; the arguments of a task start with the content id.
  unfoldable pub on_failure : String → Option String → State D → State D
  on_failure exc none s = s
  on_failure exc (some content_id) s = record s {
    db = update_status content_id "failed" none (some (dumps_error exc)) s.db;
  }

  -- `_generate_blocking`, with the content or the exception that it lets through; the title of the
  -- content is `title_of` it, and `payload` that of the row as it is inserted.
  unfoldable pub generate_blocking :
      (C → String) → String → String → Request → State D → State D × Generated C
  generate_blocking title_of content_id payload req s = elim (generate (node_of req) req.platform) [
    | inl (content, passed) ↦
        let db = persist_pending content_id (title_of content) req.platform payload s.db in
        (
          record {
            db = update_status content_id "completed" (some (dumps content)) none db;
            metrics = record_content_generated installed req.platform passed s.metrics;
          },
          inl (content, passed),
        )
    | inr e ↦ (s, inr e)
  ]

  -- The endpoint `generate` without `sync`: the row, the queue, and the job if it runs in the
  -- process. `enqueue` says whether `_enqueue_celery` has queued the job.
  unfoldable pub generate_endpoint : Bool → String → String → Request → State D → State D × String
  generate_endpoint enqueue content_id payload req s =
      let title = concat "[pending] " (if nonempty req.name then req.name else req.node_id) in
      let s' = record s { db = persist_pending content_id title req.platform payload s.db } in
      if enqueue then (s', "celery") else (process_content content_id req s', "background")

-- `_enqueue_celery`: `broker` and `eager` say that their variables are set, `delay` whether the call
-- that publishes the job goes through.
unfoldable pub enqueue_celery : Bool → Bool → Bool → Bool
enqueue_celery broker eager delay = if not broker && not eager then false else delay

-- The endpoint `content_status`: 503 without a database, 404 without a row, or status and payload.
pub data StatusReply : Type 0 where
  unavailable not_found : StatusReply
  found : String → Option String → StatusReply

unfoldable pub content_status : String → Database → StatusReply
content_status content_id db =
    if not db.configured then unavailable else elim (get content_id db.rows) [
      | none ↦ not_found
      | some row ↦ found row.status (if truthy row.payload then row.payload else none)
    ]

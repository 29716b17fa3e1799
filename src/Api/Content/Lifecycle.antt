-- ===== src/Api/Content/Lifecycle.antt =====
-- From pending to completed or failed, in the process and in a Celery task.
use ligp_v.Prelude.{
  ◌≡◌, refl, ap, ◌∙◌, Bool, true, Option, none, some, [], arith, if◌then◌else◌, String, inl, inr,
  string_eq, ◌==◌,
}
use ligp_v.Dict.{get, put, get-put, get-put_self}
use ligp_v.Api.Content.{
  Row, Database, Request, NodeRef, node_of, Generated, State, with_repo, set_status, update_status,
  process_content, generate_sync, task_request, on_failure,
}

-- A database that is there and does not fail.
abbrev pub IsUp : Database → Type 0
IsUp db = (db.configured ≡ true) × (db.outages ≡ [])

abbrev pub row_of : String → Database → Option Row
row_of content_id db = get content_id db.rows

-- The row after `update_status`.
updated : String → Option String → Option String → Row → Row
updated status result error row = record row {
  status = status;
  payload = elim result [
    | some r ↦ some r
    | none ↦ elim error [ some e ↦ some e | none ↦ row.payload ]
  ];
}

update_status_lem :
    (content_id status : String) (result error : Option String) (db : Database) (row : Row)
    → IsUp db
    → row_of content_id db ≡ some row
    → IsUp (update_status content_id status result error db)
      × ((update_status content_id status result error db).rows
          ≡ put content_id (updated status result error row) db.rows)
unfolding update_status with_repo set_status updated
update_status_lem content_id status (some r) error db row (c, o) h = ground arith
update_status_lem content_id status none (some e) db row (c, o) h = ground arith
update_status_lem content_id status none none db row (c, o) h = ground arith

-- A row that is set to processing and then to its final status.
twice :
    (content_id status j : String) (result error : Option String) (db : Database) (row : Row)
    → IsUp db
    → row_of content_id db ≡ some row
    → row_of j (
        update_status content_id status result error
          (update_status content_id "processing" none none db))
      ≡ (if content_id == j
          then some (updated status result error (updated "processing" none none row))
          else row_of j db)
twice content_id status j result error db row up h =
    let db' = update_status content_id "processing" none none db in
    let row' = updated "processing" none none row in
    let (up', rows') = update_status_lem content_id "processing" none none db row up h in
    let here : row_of content_id db' ≡ some row' =
      ap (get content_id) rows' ∙ get-put_self content_id row' db.rows in
    let (_, rows'') = update_status_lem content_id status result error db' row' up' here in
    ground (
      arith,
      ap (get j) rows'',
      ap (get j) rows',
      get-put content_id j (updated status result error row') db'.rows,
      get-put content_id j row' db.rows,
    )

module _ {C : Type 0} (dumps : C → String) (dumps_error : String → String) where
  -- The row that a job leaves.
  abbrev pub final_row : Generated C → Row → Row
  final_row (inl (content, passed)) row = record row {
    status = "completed";
    payload = some (dumps content);
  }
  final_row (inr e) row = record row { status = "failed"; payload = some (dumps_error e) }

module _ {C D : Type 0} (generate : NodeRef → String → Generated C) (dumps : C → String)
    (dumps_error : String → String) (installed : Bool) where
  process_cases :
      (content_id j : String) (req : Request) (s : State D) (row : Row) (g : Generated C)
      → generate (node_of req) req.platform ≡ g
      → IsUp s.db
      → row_of content_id s.db ≡ some row
      → row_of j (process_content generate dumps dumps_error installed content_id req s).db
        ≡ (if content_id == j then some (final_row dumps dumps_error g row) else row_of j s.db)
  unfolding process_content updated
  process_cases content_id j req s row (inl (content, passed)) e up h =
      rw (e, process_content)
        (twice content_id "completed" j (some (dumps content)) none s.db row up h)
  process_cases content_id j req s row (inr m) e up h =
      rw (e, process_content)
        (twice content_id "failed" j none (some (dumps_error m)) s.db row up h)

  -- With a database that works, a job whose row is there always ends: the row is completed, with the
  -- content that was generated, or failed, with the exception, and no other row changes.
  pub process_content_lem :
      (content_id j : String) (req : Request) (s : State D) (row : Row)
      → IsUp s.db
      → row_of content_id s.db ≡ some row
      → row_of j (process_content generate dumps dumps_error installed content_id req s).db ≡ (
          if content_id == j
          then some (final_row dumps dumps_error (generate (node_of req) req.platform) row)
          else row_of j s.db)
  process_content_lem content_id j req s row up h =
      process_cases content_id j req s row (generate (node_of req) req.platform) refl up h

  -- The last attempt of a task, with the hook that Celery calls if it lets an exception through.
  abbrev pub settle : String → State D × Option String → State D
  settle content_id (s, none) = s
  settle content_id (s, some exc) =
      on_failure generate dumps dumps_error installed exc (some content_id) s

  task_cases :
      (content_id : String) (req_data : Request) (s : State D) (g : Generated C)
      → generate (node_of (task_request req_data)) (task_request req_data).platform ≡ g
      → settle content_id (generate_sync generate dumps dumps_error installed content_id req_data s)
        ≡ process_content generate dumps dumps_error installed content_id (task_request req_data) s
  unfolding process_content generate_sync on_failure
  task_cases content_id req_data s (inl (content, passed)) e =
      rw (e, generate_sync, process_content)
  task_cases content_id req_data s (inr m) e = rw (e, generate_sync, process_content)

  -- A task that is not retried any more leaves the same database and the same metrics as the job in
  -- the process does for the same request, whatever the generation gives and however the database
  -- fails.
  pub generate_sync-process_content :
      (content_id : String) (req_data : Request) (s : State D)
      → settle content_id (generate_sync generate dumps dumps_error installed content_id req_data s)
        ≡ process_content generate dumps dumps_error installed content_id (task_request req_data) s
  generate_sync-process_content content_id req_data s =
      task_cases content_id req_data s
        (generate (node_of (task_request req_data)) (task_request req_data).platform) refl

-- ===== src/Publisher/Saga/Steps.antt =====
-- The steps of `execute`, over any world and any publisher.
use ligp_v.Prelude.{◌≡◌, refl, Option, none, some, String, inl, inr, string_eq, concat}
use ligp_v.Dict.{get, get-put_self}
use ligp_v.Publisher.Saga.{
  publishing, failed, compensating, Saga, PublisherOf, SagaCoordinator, write, new_saga,
  publish_loop, undo, compensate, conclude, execute, get_status,
}

-- The saga that the loop starts from.
abbrev pub publishing_saga : String → String → String → Saga
publishing_saga saga_id created_at platform = record (new_saga saga_id created_at platform) {
  status = publishing;
}

-- The saga of a platform without a publisher.
abbrev pub orphan : String → String → String → Saga
orphan saga_id created_at platform = record (new_saga saga_id created_at platform) {
  status = failed;
  error = some (concat "no publisher for platform: " platform);
}

module _ {S C : Type 0} where
  pub execute_found :
      (saga_id created_at platform : String) (content : C) (k : SagaCoordinator S C) (s : S)
      (p : PublisherOf S C)
      → get platform k.publishers ≡ some p
      → execute saga_id created_at content platform k s
        ≡ conclude
            (publish_loop p content k.max_retries 1 none
              (publishing_saga saga_id created_at platform)
              s)
            (write
              (publishing_saga saga_id created_at platform)
              (write (new_saga saga_id created_at platform) k))
  unfolding execute
  execute_found saga_id created_at platform content k s p found =
      unfold write in rw (found, execute)

  pub execute_absent :
      (saga_id created_at platform : String) (content : C) (k : SagaCoordinator S C) (s : S)
      → get platform k.publishers ≡ none
      → execute saga_id created_at content platform k s ≡ (
        (
          write
              (orphan saga_id created_at platform)
              (write (new_saga saga_id created_at platform) k),
          orphan saga_id created_at platform,
        ),
        s,
      )
  unfolding execute
  execute_absent saga_id created_at platform content k s absent =
      unfold write in rw (absent, execute)

  pub conclude_done :
      (saga : Saga) (s : S) (k : SagaCoordinator S C)
      → conclude ((saga, inl tt), s) k ≡ ((write saga k, saga), s)
  unfolding conclude
  conclude_done saga s k = refl

  pub get-write :
      (saga : Saga) (k : SagaCoordinator S C) → get saga.saga_id (write saga k).sagas ≡ some saga
  unfolding write
  get-write saga k = get-put_self saga.saga_id saga k.sagas

  -- The compensation of a saga that has just been written.
  pub compensate-write :
      (saga : Saga) (k : SagaCoordinator S C) (s : S)
      → compensate saga.saga_id (write saga k) s ≡ (
        write (record saga { status = compensating }) (write saga k),
        undo (get saga.platform (write saga k).publishers) saga.post_id s,
      )
  unfolding compensate
  compensate-write saga k s = rw (get-write saga k, compensate)

  pub undo_nothing :
      (p : Option (PublisherOf S C)) (post_id : Option String) (s : S)
      → post_id ≡ none
      → undo p post_id s ≡ s
  unfolding undo
  undo_nothing none post_id s h = refl
  undo_nothing (some p) none s h = refl
  undo_nothing (some p) (some post_id) s h = cc

  -- A saga without a post id: the compensation deletes nothing.
  pub conclude_failed :
      (saga : Saga) (last : Option String) (s : S) (k : SagaCoordinator S C)
      → saga.post_id ≡ none
      → let final = record saga { error = last; status = failed } in
        let touched = record saga { error = last; status = compensating } in
        conclude ((saga, inr last), s) k
        ≡ ((write final (write touched (write (record saga { error = last }) k)), final), s)
  unfolding conclude
  conclude_failed saga last s k h = rw (
    compensate-write (record saga { error = last }) k s,
    undo_nothing (get saga.platform (write (record saga { error = last }) k).publishers)
        saga.post_id s h,
  )

  pub get_status-write :
      (saga : Saga) (k : SagaCoordinator S C)
      → get_status saga.saga_id (write saga k) ≡ some saga.status
  unfolding get_status
  get_status-write saga k = rw (get-write saga k, get_status)

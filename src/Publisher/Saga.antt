-- ===== src/Publisher/Saga.antt =====
-- publisher/saga_coordinator.py. A saga is an object that `_sagas` and the caller share: each write to
-- it is a write of the entry under its id. `uuid4`, the clock and the publishers are parameters.
pub mod Steps
pub mod Outcome
pub mod Frame
use ligp_v.Prelude.{
  ℕ, zero, suc, ◌+◌, ◌-◌, ◌≡◌, refl, Bool, true, false, not, Option, none, some, List, [], ◌∷◌,
  ◌++◌, arith, if◌then◌else◌, String, length, nat_beq, ltb, leb, ◌⊎◌, inl, inr, Bool-cases, min,
  ◌==◌, Eq, string_eq, concat, or_else,
}
use ligp_v.Dict.{Dict, get, put}

pub data SagaStatus : Type 0 where
  pending publishing published failed compensating : SagaStatus

pub record Saga : Type 0 where
  pub saga_id : String
  pub status : SagaStatus
  pub platform : String
  pub published_url : Option String
  pub post_id : Option String
  pub error : Option String
  pub attempts : ℕ
  pub created_at : String

-- What `publish` returns, as far as it is read, or the text of the exception that it raises.
pub record Receipt : Type 0 where
  pub url : Option String
  pub post_id : Option String
  pub video_id : Option String

pub data Attempt : Type 0 where
  accepted : Receipt → Attempt
  raised : String → Attempt

-- A publisher acts on a world `S`. The result of `delete` is not read, and an exception of it is
-- swallowed, so only its effect is kept.
pub record PublisherOf (S C : Type 0) : Type 0 where
  pub publish : C → S → Attempt × S
  pub delete : String → S → S

pub record SagaCoordinator (S C : Type 0) : Type 0 where
  pub publishers : Dict String (PublisherOf S C)
  pub max_retries : ℕ
  pub sagas : Dict String Saga

unfoldable pub new_saga : String → String → String → Saga
new_saga saga_id created_at platform = record {
  saga_id = saga_id;
  status = pending;
  platform = platform;
  published_url = none;
  post_id = none;
  error = none;
  attempts = 0;
  created_at = created_at;
}

module _ {S C : Type 0} where
  unfoldable pub write : Saga → SagaCoordinator S C → SagaCoordinator S C
  write saga k = record k { sagas = put saga.saga_id saga k.sagas }

  -- The loop over the attempts: the saga as the last write left it, with `some` error if every
  -- attempt has failed, and the world.
  unfoldable pub publish_loop :
      PublisherOf S C
      → C
      → ℕ
      → ℕ
      → Option String
      → Saga
      → S
      → (Saga × (Unit {0} ⊎ Option String)) × S
  publish_loop p content zero attempt last_error saga s = ((saga, inr last_error), s)
  publish_loop p content (suc rounds) attempt last_error saga s =
      let tried = record saga { attempts = attempt } in
      let (outcome, s') = p.publish content s in
      elim outcome [
        | accepted r ↦ (
          (
            record tried {
              status = published;
              published_url = r.url;
              post_id = or_else r.post_id r.video_id;
              error = none;
            },
            inl tt,
          ),
          s',
        )
        | raised e ↦ publish_loop p content rounds (attempt + 1) (some e) tried s'
      ]

  -- The delete of a compensation: only with a publisher and a post id that is not empty.
  unfoldable pub undo : Option (PublisherOf S C) → Option String → S → S
  undo none post_id s = s
  undo (some p) none s = s
  undo (some p) (some post_id) s = if post_id == "" then s else p.delete post_id s

  unfoldable pub compensate : String → SagaCoordinator S C → S → SagaCoordinator S C × S
  compensate saga_id k s = elim (get saga_id k.sagas) [
    | none ↦ (k, s)
    | some saga ↦ (
      write (record saga { status = compensating }) k,
      undo (get saga.platform k.publishers) saga.post_id s,
    )
  ]

  -- After the loop: done, or the error, the compensation and FAILED.
  unfoldable pub conclude :
      (Saga × (Unit {0} ⊎ Option String)) × S
      → SagaCoordinator S C
      → (SagaCoordinator S C × Saga) × S
  conclude ((saga, outcome), s) k = elim outcome [
    | inl _ ↦ ((write saga k, saga), s)
    | inr last_error ↦
        let saga = record saga { error = last_error } in
        let (k', s') = compensate saga.saga_id (write saga k) s in
        let saga = record saga { status = failed } in ((write saga k', saga), s')
  ]

  unfoldable pub execute :
      String → String → C → String → SagaCoordinator S C → S → (SagaCoordinator S C × Saga) × S
  unfolding new_saga
  execute saga_id created_at content platform k s =
      let saga = new_saga saga_id created_at platform in
      let k = write saga k in
      elim (get platform k.publishers) [
        | none ↦
            let message = concat "no publisher for platform: " platform in
            let saga = record saga { status = failed; error = some message } in
            ((write saga k, saga), s)
        | some p ↦
            let saga = record saga { status = publishing } in
            conclude (publish_loop p content k.max_retries 1 none saga s) (write saga k)
      ]

  -- `none` is the answer `unknown`.
  unfoldable pub get_status : String → SagaCoordinator S C → Option SagaStatus
  get_status saga_id k = elim (get saga_id k.sagas) [ none ↦ none | some saga ↦ some saga.status ]

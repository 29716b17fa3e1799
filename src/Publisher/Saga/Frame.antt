-- ===== src/Publisher/Saga/Frame.antt =====
-- What `execute` guarantees whatever the publishers do.
use ligp_v.Prelude.{
  ℕ, zero, suc, ◌+◌, ◌≡◌, ◌≢◌, refl, Option, none, some, arith, String, ◌⊎◌, inl, inr, string_eq,
  eq_iff, Option-cases,
}
use ligp_v.Dict.{get, get-put}
use ligp_v.Publisher.Saga.{
  SagaStatus, published, failed, compensating, Saga, Receipt, Attempt, accepted, raised,
  PublisherOf, SagaCoordinator, write, new_saga, publish_loop, conclude, execute,
}
use ligp_v.Publisher.Saga.Steps.{
  publishing_saga, orphan, execute_absent, execute_found, compensate-write, get-write,
}

-- What the coordinator may have changed: the entry under one id.
record SameElsewhere {S C : Type 0} (saga_id : String) (k k' : SagaCoordinator S C) : Type 0 where
  others : (j : String) → j ≢ saga_id → get j k'.sagas ≡ get j k.sagas

same : {S C : Type 0} {saga_id : String} (k : SagaCoordinator S C) → SameElsewhere saga_id k k
same k = record { others = λ j ne. refl }

write-SameElsewhere :
    {S C : Type 0} (saga : Saga) (saga_id : String) (k k' : SagaCoordinator S C)
    → saga.saga_id ≡ saga_id
    → SameElsewhere saga_id k k'
    → SameElsewhere saga_id k (write saga k')
unfolding write
write-SameElsewhere saga saga_id k k' e h = record {
  others = λ j ne.
      ground (arith, get-put saga.saga_id j saga k'.sagas, eq_iff saga.saga_id j, h.others j ne);
}

Attempt-cases : (a : Attempt) → ((r : Receipt) × (a ≡ accepted r)) ⊎ ((e : String) × (a ≡ raised e))
Attempt-cases (accepted r) = inl (r, refl)
Attempt-cases (raised e) = inr (e, refl)

saga_id-publish_loop :
    {S C : Type 0} (p : PublisherOf S C) (content : C) (rounds attempt : ℕ) (last : Option String)
    (saga : Saga) (s : S)
    → (publish_loop p content rounds attempt last saga s).0.0.saga_id ≡ saga.saga_id
unfolding publish_loop
saga_id-publish_loop p content zero attempt last saga s = refl
saga_id-publish_loop p content (suc rounds) attempt last saga s =
    elim (Attempt-cases (p.publish content s).0) [
      | inl (r, h) ↦ rw (h, publish_loop)
      | inr (e, h) ↦
          rw (h, publish_loop)
            (saga_id-publish_loop p content rounds (attempt + 1) (some e)
              (record saga { attempts = attempt }) (p.publish content s).1)
    ]

conclude-SameElsewhere :
    {S C : Type 0} (saga_id : String) (r : (Saga × (Unit {0} ⊎ Option String)) × S)
    (k k' : SagaCoordinator S C)
    → r.0.0.saga_id ≡ saga_id
    → SameElsewhere saga_id k k'
    → SameElsewhere saga_id k (conclude r k').0.0
unfolding conclude
conclude-SameElsewhere saga_id ((saga, inl _), s) k k' e h =
    write-SameElsewhere saga saga_id k k' e h
conclude-SameElsewhere saga_id ((saga, inr last), s) k k' e h =
    let with_error = record saga { error = last } in
    rw (compensate-write with_error k' s) (
      write-SameElsewhere (record saga { error = last; status = failed }) saga_id k _ e
        (write-SameElsewhere (record saga { error = last; status = compensating }) saga_id k _ e
          (write-SameElsewhere with_error saga_id k k' e h)))

get-conclude :
    {S C : Type 0} (saga_id : String) (r : (Saga × (Unit {0} ⊎ Option String)) × S)
    (k : SagaCoordinator S C)
    → r.0.0.saga_id ≡ saga_id
    → get saga_id (conclude r k).0.0.sagas ≡ some (conclude r k).0.1
unfolding conclude
get-conclude saga_id ((saga, inl _), s) k e = rw (← e) (get-write saga k)
get-conclude saga_id ((saga, inr last), s) k e =
    rw (← e) (get-write (record saga { error = last; status = failed }) _)

abbrev pub IsFinal : SagaStatus → Type 0
IsFinal status = (status ≡ published) ⊎ (status ≡ failed)

publish_loop-IsFinal :
    {S C : Type 0} (p : PublisherOf S C) (content : C) (rounds attempt : ℕ) (last : Option String)
    (saga : Saga) (s : S) (k : SagaCoordinator S C)
    → IsFinal (conclude (publish_loop p content rounds attempt last saga s) k).0.1.status
unfolding publish_loop conclude
publish_loop-IsFinal p content zero attempt last saga s k = inr refl
publish_loop-IsFinal p content (suc rounds) attempt last saga s k =
    elim (Attempt-cases (p.publish content s).0) [
      | inl (r, h) ↦ rw (h, publish_loop) (inl refl)
      | inr (e, h) ↦
          rw (h, publish_loop)
            (publish_loop-IsFinal p content rounds (attempt + 1) (some e)
              (record saga { attempts = attempt }) (p.publish content s).1 k)
    ]

module _ {S C : Type 0} (saga_id created_at platform : String) (content : C)
    (k : SagaCoordinator S C) (s : S) where
  abbrev call : (SagaCoordinator S C × Saga) × S
  call = execute saga_id created_at content platform k s

  -- Whatever the publishers do, and with no publisher at all, `execute` returns a saga that is
  -- PUBLISHED or FAILED, never in between; it is the saga stored under its id; and every saga under
  -- another id is as it was.
  pub execute_frame :
      (j : String)
      → j ≢ saga_id
      → IsFinal call.0.1.status
        × (get saga_id call.0.0.sagas ≡ some call.0.1)
        × (get j call.0.0.sagas ≡ get j k.sagas)
  execute_frame j ne = elim (Option-cases (get platform k.publishers)) [
    | inl absent ↦
        let fresh = new_saga saga_id created_at platform in
        let last = orphan saga_id created_at platform in
        rw (execute_absent saga_id created_at platform content k s absent) (
          inr refl,
          unfold new_saga in get-write last _,
          (write-SameElsewhere last saga_id k (write fresh k) (unfold new_saga in refl)
                (write-SameElsewhere fresh saga_id k k (unfold new_saga in refl) (same k))).others
              j ne,
        )
    | inr (p, found) ↦
        let start = publishing_saga saga_id created_at platform in
        let fresh = new_saga saga_id created_at platform in
        let r = publish_loop p content k.max_retries 1 none start s in
        let id_kept : r.0.0.saga_id ≡ saga_id =
          unfold new_saga in saga_id-publish_loop p content k.max_retries 1 none start s in
        rw (execute_found saga_id created_at platform content k s p found) (
          publish_loop-IsFinal p content k.max_retries 1 none start s _,
          get-conclude saga_id r _ id_kept,
          (conclude-SameElsewhere saga_id r k _ id_kept (
                write-SameElsewhere start saga_id k _ (unfold new_saga in refl) (
                  write-SameElsewhere fresh saga_id k k (unfold new_saga in refl) (same k)))).others
              j ne,
        )
  ]

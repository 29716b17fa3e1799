-- ===== src/Publisher/Saga/Outcome.antt =====
-- How a saga ends. The publisher is given by the outcomes of its successive calls of `publish`; the
-- world counts them and lists the posts that were deleted.
use ligp_v.Prelude.{
  ℕ, zero, suc, ◌+◌, ◌≡◌, ◌<◌, refl, Option, none, some, List, [], ◌∷◌, ◌++◌, arith, String, inl,
  inr, string_eq, or_else,
}
use native.Mathlib.Nat.{add-zero}
use Prim.Native.Nat.add
use ligp_v.Dict.{get}
use ligp_v.Publisher.Saga.{
  published, failed, Saga, Receipt, Attempt, accepted, raised, PublisherOf, SagaCoordinator,
  new_saga, publish_loop, execute, get_status,
}
use ligp_v.Publisher.Saga.Steps.{
  publishing_saga, execute_found, conclude_done, get-write, conclude_failed, get_status-write,
}

pub record World : Type 0 where
  pub publishes : ℕ
  pub deleted : List String

abbrev pub done : Receipt → ℕ → Saga → Saga
done r n saga = record saga {
  attempts = n;
  status = published;
  published_url = r.url;
  post_id = or_else r.post_id r.video_id;
  error = none;
}

abbrev pub error_of : Attempt → Option String
error_of (accepted r) = none
error_of (raised e) = some e

shift : (a k : ℕ) → a + suc k ≡ a + 1 + k
shift a k = omega arith

module _ (script : ℕ → Attempt) where
  -- The next `k` calls of `publish`, from the `c`-th on, raise.
  abbrev pub AllRaised : ℕ → ℕ → Type 0
  AllRaised c zero = Unit
  AllRaised c (suc k) = ((e : String) × (script c ≡ raised e)) × AllRaised (c + 1) k

  -- `last_error` after an attempt of the `c`-th call and `k` more.
  abbrev pub last_error : ℕ → ℕ → Option String
  last_error c zero = error_of (script c)
  last_error c (suc k) = last_error (c + 1) k

  module _ {C : Type 0} where
    abbrev pub scripted : PublisherOf World C
    scripted = record {
      publish = λ content w. (script w.publishes, record w { publishes = w.publishes + 1 });
      delete = λ post_id w. record w { deleted = w.deleted ++ post_id ∷ [] };
    }

    loop_accepted :
        (content : C) (k rounds attempt : ℕ) (last : Option String) (saga : Saga) (w : World)
        (r : Receipt)
        → AllRaised w.publishes k
        → script (w.publishes + k) ≡ accepted r
        → k < rounds
        → publish_loop scripted content rounds attempt last saga w
          ≡ ((done r (attempt + k) saga, inl tt), record w { publishes = w.publishes + k + 1 })
    unfolding publish_loop
    loop_accepted content k zero attempt last saga w r hs h lt = absurd (omega arith)
    loop_accepted content zero (suc rounds) attempt last saga w r hs h lt =
        let h' : script w.publishes ≡ accepted r = rw (add-zero w.publishes) at h in
        rw (h', add-zero attempt, add-zero w.publishes)
    loop_accepted content (suc k) (suc rounds) attempt last saga w r ((e, p), hs) h lt =
        rw (p, shift attempt k, shift w.publishes k)
          (loop_accepted content k rounds (attempt + 1) (some e)
            (record saga { attempts = attempt }) (record w { publishes = w.publishes + 1 }) r hs
            (rw (shift w.publishes k) at h) (omega arith))

    loop_exhausted :
        (content : C) (n attempt : ℕ) (last : Option String) (saga : Saga) (w : World)
        → AllRaised w.publishes (suc n)
        → publish_loop scripted content (suc n) attempt last saga w ≡ (
          (record saga { attempts = attempt + n }, inr (last_error w.publishes n)),
          record w { publishes = w.publishes + suc n },
        )
    unfolding publish_loop
    loop_exhausted content zero attempt last saga w ((e, p), _) = rw (p, add-zero attempt)
    loop_exhausted content (suc n) attempt last saga w ((e, p), hs) =
        rw (p, shift attempt n, shift w.publishes (suc n))
          (loop_exhausted content n (attempt + 1) (some e) (record saga { attempts = attempt })
            (record w { publishes = w.publishes + 1 }) hs)

    module _ (saga_id created_at platform : String) (content : C) (k : SagaCoordinator World C)
        (w : World) (found : get platform k.publishers ≡ some scripted) where
      abbrev call : (SagaCoordinator World C × Saga) × World
      call = execute saga_id created_at content platform k w

      -- If the first `n` calls of `publish` raise, the next one returns a receipt and `max_retries`
      -- allows it, the saga ends PUBLISHED after `n + 1` attempts with the receipt's url and its post
      -- id, or else its video id; the status is the one that `get_status` reads, and the publisher
      -- has been called `n + 1` times and has deleted nothing.
      pub execute-published :
          (n : ℕ) (r : Receipt)
          → AllRaised w.publishes n
          → script (w.publishes + n) ≡ accepted r
          → n < k.max_retries
          → (call.0.1 ≡ done r (suc n) (new_saga saga_id created_at platform))
            × (get_status saga_id call.0.0 ≡ some published)
            × (call.1 ≡ record w { publishes = w.publishes + n + 1 })
      execute-published n r hs h lt =
          let start = publishing_saga saga_id created_at platform in
          rw
            (
              execute_found saga_id created_at platform content k w scripted found,
              loop_accepted content n k.max_retries 1 none start w r hs h lt,
              add.suc zero n,
              add.zero n,
            )
            (rw conclude_done
              (refl, unfold new_saga in get_status-write (done r (suc n) start) _, refl))

      -- If every one of the `n + 1` attempts raises, the saga ends FAILED with the last error and
      -- `n + 1` attempts, and is stored so. The compensation has deleted nothing: the world is that
      -- after the attempts.
      pub execute-failed :
          (n : ℕ)
          → k.max_retries ≡ suc n
          → AllRaised w.publishes (suc n)
          → (call.0.1.status ≡ failed)
            × (call.0.1.attempts ≡ suc n)
            × (call.0.1.error ≡ last_error w.publishes n)
            × (get saga_id call.0.0.sagas ≡ some call.0.1)
            × (call.1 ≡ record w { publishes = w.publishes + suc n })
      execute-failed n m hs =
          let start = publishing_saga saga_id created_at platform in
          let no_post : start.post_id ≡ none = unfold new_saga in refl in
          rw
            (
              execute_found saga_id created_at platform content k w scripted found,
              m,
              loop_exhausted content n 1 none start w hs,
              add.suc zero n,
              add.zero n,
            )
            (rw (conclude_failed, no_post)
              (refl, refl, refl, unfold new_saga in get-write _ _, refl))

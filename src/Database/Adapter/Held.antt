-- ===== src/Database/Adapter/Held.antt =====
-- The connection that a transaction holds, and the calls that its statements make on it.
use mathlib.Core.List.{append-nil, append_assoc}
use ligp_v.Prelude.{
  ℕ, ◌≡◌, ◌⊎◌, refl, Bool, true, false, none, some, List, [], ◌∷◌, ◌++◌, arith, String, inl, inr,
  ap, Option-cases, Bool-cases, ◌∙◌,
}
use ligp_v.Database.Adapter.{
  is_sqlite, Call, ran, failed, Driver, Adapter, note, acquire, connect, get_pool, from_pool,
  statement, execute, block, normalize, committed, commit_failed, rolled_back, rollback_failed,
  commit, rollback, abort, attempt, transaction, finish,
}

module _ {R : Type 0} (d : Driver R) where
  -- The connection that every statement of the transaction gets.
  abbrev pub Holds : ℕ → Adapter → Type 0
  Holds c a =
      (a.in_transaction ≡ true)
      × (((is_sqlite a.backend ≡ true) × (a.conn ≡ some c))
          ⊎ ((is_sqlite a.backend ≡ false) × (a.tx_conn ≡ some c) × (a.pool ≡ true))
          ⊎ ((is_sqlite a.backend ≡ false)
              × (a.tx_conn ≡ none)
              × (a.pool ≡ false)
              × (d.pool_package ≡ false)
              × (a.conn ≡ some c)))

  pub acquire-Holds : (c : ℕ) (a : Adapter) → Holds c a → acquire d a ≡ (a, some c)
  unfolding acquire connect get_pool
  acquire-Holds c a h = ground arith

  pub Holds-acquire :
      (c : ℕ) (a a' : Adapter)
      → a.in_transaction ≡ true
      → a.tx_conn ≡ none
      → acquire d a ≡ (a', some c)
      → Holds c a'
  unfolding acquire connect get_pool from_pool
  Holds-acquire c a a' h k e = ground arith

  module _ (placeholders : String → String) where
    abbrev pub text : Adapter → String → String
    text a = normalize placeholders a.backend

    execute-held :
        (c : ℕ) (a : Adapter) (query : String)
        → Holds c a
        → ((rows : R) × (execute d placeholders query a
              ≡ (note (ran c (text a query)) a, some rows)))
          ⊎ (execute d placeholders query a ≡ (note (failed c (text a query)) a, none))
    unfolding execute statement
    execute-held c a query h = elim (Option-cases (d.run a.calls c (text a query))) [
      | inl raised ↦ inr (ground (arith, acquire-Holds c a h, raised))
      | inr (rows, e) ↦ inl (rows, ground (arith, acquire-Holds c a h, e))
    ]

-- The calls of the statements of a block, and whether all of them returned.
pub data Trail (text : String → String) (c : ℕ) : List String → List Call → Bool → Type 0 where
  over : Trail text c [] [] true
  stopped : {q : String} {qs : List String} → Trail text c (q ∷ qs) (failed c (text q) ∷ []) false
  further :
      {q : String} {qs : List String} {cs : List Call} {b : Bool}
      → Trail text c qs cs b
      → Trail text c (q ∷ qs) (ran c (text q) ∷ cs) b

-- The calls after the block, for one that ended or not, and whether the transaction succeeds.
pub data Closing (c : ℕ) : Bool → List Call → Bool → Type 0 where
  kept : Closing c true (committed c ∷ []) true
  refused : Closing c true (commit_failed c ∷ rolled_back c ∷ []) false
  refused_stuck : Closing c true (commit_failed c ∷ rollback_failed c ∷ []) false
  dropped : Closing c false (rolled_back c ∷ []) false
  stuck : Closing c false (rollback_failed c ∷ []) false

module _ {R : Type 0} (d : Driver R) (placeholders : String → String) where
  block-returned :
      {a' : Adapter} (q : String) (qs : List String) (a : Adapter) (rows : R)
      → execute d placeholders q a ≡ (a', some rows)
      → block d placeholders (q ∷ qs) a ≡ block d placeholders qs a'
  unfolding block
  block-returned q qs a rows e = ground (arith, e)

  -- The statements of a block run on the held connection, in order, until one raises.
  pub block-held :
      (c : ℕ) (queries : List String) (a : Adapter)
      → Holds d c a
      → (cs : List Call) × (ended : Bool) × (block d placeholders queries a
          ≡ (record a { calls = a.calls ++ cs }, ended))
        × Trail (normalize placeholders a.backend) c queries cs ended
  unfolding block
  block-held c [] a h = ([], true, rw append-nil refl, Trail.over)
  block-held c (q ∷ qs) a h = elim (execute-held d placeholders c a q h) [
    | inl (rows, e) ↦
        let (cs, b, same, t) =
          block-held c qs (note (ran c (normalize placeholders a.backend q)) a) h in
        (
          ran c (normalize placeholders a.backend q) ∷ cs,
          b,
          block-returned q qs a rows e
              ∙ same
              ∙ ap (λ l. (record a { calls = l }, b))
                  (append_assoc a.calls (ran c (normalize placeholders a.backend q) ∷ []) cs),
          Trail.further t,
        )
    | inr e ↦ (
      failed c (normalize placeholders a.backend q) ∷ [],
      false,
      ground (arith, e),
      Trail.stopped,
    )
  ]

  abort_calls :
      (c : ℕ) (a : Adapter)
      → (abort d c a ≡ note (rolled_back c) a) ⊎ (abort d c a ≡ note (rollback_failed c) a)
  unfolding abort rollback
  abort_calls c a = elim (Bool-cases (d.rollback a.calls c)) [
    | inl done ↦ inl (ground (arith, done))
    | inr raised ↦ inr (ground (arith, raised))
  ]

  twice :
      (c : ℕ) (queries : List String) (a b : Adapter) (k : Call)
      → block d placeholders queries a ≡ (b, true)
      → d.commit b.calls c ≡ false
      → abort d c (note (commit_failed c) b) ≡ note k (note (commit_failed c) b)
      → attempt d placeholders c queries a
        ≡ (record b { calls = b.calls ++ commit_failed c ∷ k ∷ [] }, false)
  unfolding attempt commit
  twice c queries a b k e no_commit undo =
      let first : attempt d placeholders c queries a
          ≡ (abort d c (note (commit_failed c) b), false) =
        ground (arith, e, no_commit) in
      first
      ∙ ap (λ x. (x, false)) undo
      ∙ ap (λ l. (record b { calls = l }, false))
          (append_assoc b.calls (commit_failed c ∷ []) (k ∷ []))

  attempt-ended :
      (c : ℕ) (queries : List String) (a b : Adapter) (ended : Bool)
      → block d placeholders queries a ≡ (b, ended)
      → (close : List Call) × (done : Bool) × (attempt d placeholders c queries a
          ≡ (record b { calls = b.calls ++ close }, done))
        × Closing c ended close done
  unfolding attempt commit
  attempt-ended c queries a b false e = elim (abort_calls c b) [
    | inl undone ↦ (_, false, ground (arith, e, undone), Closing.dropped)
    | inr raised ↦ (_, false, ground (arith, e, raised), Closing.stuck)
  ]
  attempt-ended c queries a b true e = elim (Bool-cases (d.commit b.calls c)) [
    | inl done ↦ (_, true, ground (arith, e, done), Closing.kept)
    | inr no_commit ↦ elim (abort_calls c (note (commit_failed c) b)) [
      | inl undone ↦
          (_, false, twice c queries a b (rolled_back c) e no_commit undone, Closing.refused)
      | inr raised ↦ (
        _,
        false,
        twice c queries a b (rollback_failed c) e no_commit raised,
        Closing.refused_stuck,
      )
    ]
  ]

  -- The calls of a transaction whose connection was acquired: those of its statements, and the end.
  pub transaction_calls :
      (queries : List String) (a a' : Adapter) (c : ℕ)
      → a.tx_conn ≡ none
      → acquire d (record a { in_transaction = true }) ≡ (a', some c)
      → (cs close : List Call) × (ended done : Bool) × Trail
          (normalize placeholders a'.backend)
          c
          queries
          cs
          ended
        × Closing c ended close done
        × (transaction d placeholders queries a
            ≡ (finish (record a' { calls = (a'.calls ++ cs) ++ close }), done))
  unfolding transaction
  transaction_calls queries a a' c idle got_it =
      let held = Holds-acquire d c (record a { in_transaction = true }) a' refl idle got_it in
      let (cs, ended, runs, t) = block-held c queries a' held in
      let (close, done, ends, k) =
        attempt-ended c queries a' (record a' { calls = a'.calls ++ cs }) ended runs in
      (cs, close, ended, done, t, k, ground (arith, got_it, ends))

-- ===== src/Database/Adapter/Returned.antt =====
-- The idle adapter, and the operations that start from one.
use ligp_v.Prelude.{
  zero, ℕ, ◌+◌, ◌≡◌, refl, Bool, true, false, Option, none, some, List, [], ◌∷◌, ◌++◌, arith,
  if◌then◌else◌, String, ap, ◌∙◌, Option-cases, Bool-cases, inl, inr, not, is_some, ◌&&◌,
}
use ligp_v.Database.Adapter.{
  is_sqlite, Call, got, put_back, got, Driver, Adapter, acquire, connect, get_pool, from_pool,
  normalize, statement, execute, transaction, commit, release, finish, ran, failed, committed,
  commit_failed, connected, connect_failed, get_failed, pool_made,
}
use ligp_v.Database.Adapter.Held.{Trail, Closing, transaction_calls}
use ligp_v.Database.Adapter.Loans.{taken, given, count, Owes, Owes-append}

-- Between operations no connection is held or out.
pub record IsIdle (a : Adapter) : Type 0 where
  pub flag : a.in_transaction ≡ false
  pub held : a.tx_conn ≡ none
  pub settled : Owes 0 a.calls

-- What is out after `_acquire`.
abbrev loan : Adapter → Option ℕ → ℕ
loan a r = if not (is_sqlite a.backend) && a.pool && is_some r then 1 else 0

IsIdle-finish :
    (b : Adapter)
    → Owes (loan b (some zero)) b.calls
    → loan b (some zero) ≡ (if is_some b.tx_conn then 1 else 0)
    → IsIdle (finish b)
unfolding finish
IsIdle-finish b h k = elim (Option-cases b.tx_conn) [
  | inl idle ↦
      rw (idle, finish) (record { flag = refl; held = idle; settled = ground (arith, idle) })
  | inr (c, e) ↦
      rw (e, finish)
        (record {
          flag = ground arith;
          held = ground arith;
          settled =
              ground
                (arith, Owes-append 1 0 b.calls (put_back c ∷ []) (rw (k, e) at h) (omega arith));
        })
]

-- The calls of the statements and of the end take and give nothing.
Owes-Trail :
    (text : String → String) (c n : ℕ) (queries : List String) (cs : List Call) (ended : Bool)
    → Trail text c queries cs ended
    → count taken cs + n ≡ count given cs + n
Owes-Trail text c n queries cs ended Trail.over = refl
Owes-Trail text c n queries cs ended Trail.stopped = omega arith
Owes-Trail text c n queries cs ended (Trail.further {q} {qs} {cs = ks} t) =
    omega (arith, Owes-Trail text c n qs ks ended t)

Owes-Closing :
    (c n : ℕ) (ended done : Bool) (close : List Call)
    → Closing c ended close done
    → count taken close + n ≡ count given close + n
Owes-Closing c n ended done close Closing.kept = omega arith
Owes-Closing c n ended done close Closing.refused = omega arith
Owes-Closing c n ended done close Closing.refused_stuck = omega arith
Owes-Closing c n ended done close Closing.dropped = omega arith
Owes-Closing c n ended done close Closing.stuck = omega arith

module _ {R : Type 0} (d : Driver R) where
  Owes-connect : (a : Adapter) → Owes 0 a.calls → Owes 0 (connect d a).0.calls
  unfolding connect
  Owes-connect a h = elim (Option-cases (d.connect a.calls)) [
    | inl raised ↦ ground (arith, raised, Owes-append 0 0 a.calls (connect_failed ∷ []) h refl)
    | inr (c, e) ↦ ground (arith, e, Owes-append 0 0 a.calls (connected c ∷ []) h refl)
  ]

  Owes-get_pool : (a : Adapter) → Owes 0 a.calls → Owes 0 (get_pool d a).0.calls
  unfolding get_pool
  Owes-get_pool a h = ground (arith, Owes-append 0 0 a.calls (pool_made ∷ []) h refl)

  Owes-from_pool :
      (a : Adapter)
      → Owes 0 a.calls
      → Owes (if is_some (from_pool d a).1 then 1 else 0) (from_pool d a).0.calls
  unfolding from_pool
  Owes-from_pool a h = elim (Option-cases (d.getconn a.calls)) [
    | inl raised ↦ ground (arith, raised, Owes-append 0 0 a.calls (get_failed ∷ []) h refl)
    | inr (c, e) ↦ ground (arith, e, Owes-append 0 1 a.calls (got c ∷ []) h (omega arith))
  ]

  frame-connect :
      (a : Adapter)
      → ((connect d a).0.backend ≡ a.backend)
        × ((connect d a).0.pool ≡ a.pool)
        × ((connect d a).0.tx_conn ≡ a.tx_conn)
  unfolding connect
  frame-connect a = ground arith

  frame-from_pool :
      (a : Adapter)
      → ((from_pool d a).0.backend ≡ a.backend)
        × ((from_pool d a).0.pool ≡ a.pool)
        × (a.in_transaction ≡ false → (from_pool d a).0.tx_conn ≡ a.tx_conn)
  unfolding from_pool
  frame-from_pool a = ground arith

  frame-get_pool :
      (a : Adapter)
      → ((get_pool d a).0.backend ≡ a.backend)
        × (is_sqlite a.backend ≡ false → (get_pool d a).0.pool ≡ (get_pool d a).1)
        × ((get_pool d a).0.tx_conn ≡ a.tx_conn)
        × ((get_pool d a).0.in_transaction ≡ a.in_transaction)
  unfolding get_pool
  frame-get_pool a = ground arith

  Owes-acquire :
      (a : Adapter)
      → a.tx_conn ≡ none
      → Owes 0 a.calls
      → Owes (loan (acquire d a).0 (acquire d a).1) (acquire d a).0.calls
  unfolding acquire
  Owes-acquire a held h = elim (Bool-cases (is_sqlite a.backend)) [
    | inl lite ↦ ground (arith, lite, frame-connect a, Owes-connect a h)
    | inr other ↦ elim (Bool-cases (get_pool d a).1) [
      | inl has ↦ ground (
        arith,
        other,
        has,
        held,
        frame-get_pool a,
        frame-from_pool (get_pool d a).0,
        Owes-from_pool (get_pool d a).0 (Owes-get_pool a h),
      )
      | inr none_there ↦ ground (
        arith,
        other,
        none_there,
        held,
        frame-get_pool a,
        frame-connect (get_pool d a).0,
        Owes-connect (get_pool d a).0 (Owes-get_pool a h),
      )
    ]
  ]

  idle-acquire :
      (a : Adapter)
      → a.in_transaction ≡ false
      → a.tx_conn ≡ none
      → ((acquire d a).0.in_transaction ≡ false) × ((acquire d a).0.tx_conn ≡ none)
  unfolding acquire connect get_pool from_pool
  idle-acquire a flag held = ground arith

  -- Within a transaction a pooled connection is out exactly if it is held.
  loan-acquire :
      (a : Adapter) (c : ℕ)
      → a.tx_conn ≡ none
      → (acquire d (record a { in_transaction = true })).1 ≡ some c
      → let b = (acquire d (record a { in_transaction = true })).0 in
        loan b (some c) ≡ (if is_some b.tx_conn then 1 else 0)
  unfolding acquire connect get_pool from_pool
  loan-acquire a c held e = ground arith

  module _ (placeholders : String → String) where
    frame-statement :
        (c : ℕ) (q : String) (a : Adapter) (n : ℕ)
        → a.in_transaction ≡ false
        → Owes n a.calls
        → let b = (statement d placeholders c q a).0 in
          (b.backend ≡ a.backend)
          × (b.pool ≡ a.pool)
          × (b.tx_conn ≡ a.tx_conn)
          × (b.in_transaction ≡ false)
          × Owes n b.calls
    unfolding statement commit
    frame-statement c q a n flag h =
        let text = normalize placeholders a.backend q in
        elim (Option-cases (d.run a.calls c text)) [
          | inl raised ↦
              ground
                (arith, raised, flag, Owes-append n n a.calls (failed c text ∷ []) h (omega arith))
          | inr (rows, e) ↦
              let run = a.calls ++ ran c text ∷ [] in
              let now = Owes-append n n a.calls (ran c text ∷ []) h (omega arith) in
              ground (
                arith,
                e,
                flag,
                Owes-append n n run (committed c ∷ []) now (omega arith),
                Owes-append n n run (commit_failed c ∷ []) now (omega arith),
              )
        ]

    IsIdle-release :
        (c : ℕ) (b : Adapter)
        → b.in_transaction ≡ false
        → b.tx_conn ≡ none
        → Owes (loan b (some c)) b.calls
        → IsIdle (release c b)
    unfolding release
    IsIdle-release c b flag held h = elim (Bool-cases (not (is_sqlite b.backend) && b.pool)) [
      | inl pooled ↦ record {
        flag = ground arith;
        held = ground arith;
        settled =
            ground
              (arith, Owes-append 1 0 b.calls (put_back c ∷ []) (rw pooled at h) (omega arith));
      }
      | inr alone ↦ record {
        flag = ground arith;
        held = ground arith;
        settled = ground (arith, alone, h);
      }
    ]

    -- A statement outside a transaction leaves the adapter idle: whatever the drivers answer,
    -- exceptions included, the connection that it took from the pool is back in the pool, and
    -- none is held.
    pub execute-IsIdle :
        (query : String) (a : Adapter) → IsIdle a → IsIdle (execute d placeholders query a).0
    unfolding execute
    execute-IsIdle query a i =
        let (flag, held) = idle-acquire a i.flag i.held in
        elim (Option-cases (acquire d a).1) [
          | inl raised ↦
              rw (raised, execute)
                (record {
                  flag = flag;
                  held = held;
                  settled = ground (arith, raised, Owes-acquire a i.held i.settled);
                })
          | inr (c, e) ↦
              let b = acquire d a in
              let owed : Owes (loan b.0 (some c)) b.0.calls =
                rw e at (Owes-acquire a i.held i.settled) in
              let (back, pool, tx, still, owes) =
                frame-statement c query b.0 (loan b.0 (some c)) flag owed in
              rw (e, execute, still)
                (IsIdle-release c (statement d placeholders c query b.0).0 still (tx ∙ held)
                  (rw (back, pool) owes))
        ]

    -- A transaction that acquires its connection leaves the adapter idle again: in every case,
    -- exceptions included, the flag is cleared, the connection is back in the pool, and none is
    -- held.
    pub transaction-IsIdle :
        (queries : List String) (a : Adapter) (c : ℕ)
        → IsIdle a
        → (acquire d (record a { in_transaction = true })).1 ≡ some c
        → IsIdle (transaction d placeholders queries a).0
    transaction-IsIdle queries a c i e =
        let b = (acquire d (record a { in_transaction = true })).0 in
        let (cs, close, ended, done, t, k, runs) =
          transaction_calls d placeholders queries a b c i.held (ap (λ x. (b, x)) e) in
        let owed : Owes (loan b (some c)) b.calls =
          rw e at (Owes-acquire (record a { in_transaction = true }) i.held i.settled) in
        let n = loan b (some c) in
        let ran_all =
          Owes-append n n b.calls cs owed
            (Owes-Trail (normalize placeholders b.backend) c n queries cs ended t) in
        rw runs (
          IsIdle-finish (record b { calls = (b.calls ++ cs) ++ close })
            (Owes-append n n (b.calls ++ cs) close ran_all (Owes-Closing c n ended done close k))
            (loan-acquire a c i.held e))

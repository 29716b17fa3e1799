-- ===== src/Database/Adapter.antt =====
-- `DBAdapter` of database/db_adapter.py. The drivers (sqlite3, psycopg, psycopg_pool) are a parameter
-- that answers to the calls made so far; the adapter keeps the list of these calls in `calls`.
-- Connections are numbers. `placeholders` is `query.replace("?", "%s")`. The construction of the pool
-- returns, and its registration for the metrics is left out.
pub mod Held
pub mod Commits
pub mod Loans
pub mod Returned
pub mod Leak
use ligp_v.Prelude.{
  ℕ, ◌≡◌, Bool, true, false, not, ◌&&◌, Option, none, some, List, [], ◌∷◌, ◌++◌, arith,
  if◌then◌else◌, String, is_some,
}

pub data Backend : Type 0 where
  sqlite postgres : Backend

abbrev pub is_sqlite : Backend → Bool
is_sqlite sqlite = true
is_sqlite postgres = false

-- The calls, with the connection and the outcome where they may fail.
pub data Call : Type 0 where
  connected got put_back committed commit_failed rolled_back rollback_failed closed : ℕ → Call
  ran failed : ℕ → String → Call
  connect_failed get_failed pool_made pool_closed : Call

-- `_normalize`
unfoldable pub normalize : (String → String) → Backend → String → String
normalize placeholders sqlite query = query
normalize placeholders postgres query = placeholders query

-- What the drivers answer. `none` and `false` are exceptions.
pub record Driver (R : Type 0) : Type 0 where
  pub connect : List Call → Option ℕ
  pub getconn : List Call → Option ℕ
  pub run : List Call → ℕ → String → Option R
  pub commit : List Call → ℕ → Bool
  pub rollback : List Call → ℕ → Bool
  -- Whether psycopg_pool is installed.
  pub pool_package : Bool

pub record Adapter : Type 0 where
  pub backend : Backend
  pub conn : Option ℕ
  pub pool : Bool
  pub tx_conn : Option ℕ
  pub in_transaction : Bool
  pub calls : List Call

-- `__init__`, after the choice of the address.
abbrev pub init : Backend → Adapter
init backend = record {
  backend = backend;
  conn = none;
  pool = false;
  tx_conn = none;
  in_transaction = false;
  calls = [];
}

-- A call that the adapter makes.
abbrev pub note : Call → Adapter → Adapter
note c a = record a { calls = a.calls ++ c ∷ [] }

-- The adapter after an operation, and the result, `none` if it raised.
abbrev pub Res : Type 0 → Type 0
Res A = Adapter × Option A

-- `_release`
unfoldable pub release : ℕ → Adapter → Adapter
release c a =
    if is_sqlite a.backend
    then a
    else if a.in_transaction
    then a
    else if a.pool
    then note (put_back c) a
    else a

-- The `finally` of `transaction`.
unfoldable pub finish : Adapter → Adapter
finish a =
    let a' = record a { in_transaction = false } in
    elim a'.tx_conn [
      | none ↦ a'
      | some c ↦
          if is_sqlite a'.backend
          then a'
          else record (if a'.pool then note (put_back c) a' else a') { tx_conn = none }
    ]

module _ {R : Type 0} (d : Driver R) where
  -- `connect`, and the connection that stands then.
  unfoldable pub connect : Adapter → Res ℕ
  connect a = elim a.conn [
    | some c ↦ (a, some c)
    | none ↦ elim (d.connect a.calls) [
      | none ↦ (note connect_failed a, none)
      | some c ↦ (note (connected c) (record a { conn = some c }), some c)
    ]
  ]

  -- `_get_pool`, and whether there is a pool then.
  unfoldable pub get_pool : Adapter → Adapter × Bool
  get_pool a =
      if is_sqlite a.backend
      then (a, false)
      else if a.pool
      then (a, true)
      else if not d.pool_package
      then (a, false)
      else (note pool_made (record a { pool = true }), true)

  -- `_acquire` from a pool.
  unfoldable pub from_pool : Adapter → Res ℕ
  from_pool a = elim (d.getconn a.calls) [
    | none ↦ (note get_failed a, none)
    | some c ↦
        let a' = note (got c) a in
        (if a'.in_transaction then record a' { tx_conn = some c } else a', some c)
  ]

  -- `_acquire`
  unfoldable pub acquire : Adapter → Res ℕ
  acquire a =
      if is_sqlite a.backend
      then connect a
      else if a.in_transaction && is_some a.tx_conn
      then (a, a.tx_conn)
      else let (a', has) = get_pool a in if has then from_pool a' else connect a'

  -- `conn.commit()` and `conn.rollback()`, and whether they return.
  unfoldable pub commit : ℕ → Adapter → Adapter × Bool
  commit c a =
      if d.commit a.calls c then (note (committed c) a, true) else (note (commit_failed c) a, false)

  unfoldable pub rollback : ℕ → Adapter → Adapter × Bool
  rollback c a =
      if d.rollback a.calls c
      then (note (rolled_back c) a, true)
      else (note (rollback_failed c) a, false)

  -- `except`: the exception goes on in any case.
  unfoldable pub abort : ℕ → Adapter → Adapter
  abort c a = (rollback c a).0

  module _ (placeholders : String → String) where
    -- The `try` block of `execute` and `executemany`.
    unfoldable pub statement : ℕ → String → Adapter → Res R
    statement c query a =
        let q = normalize placeholders a.backend query in
        elim (d.run a.calls c q) [
          | none ↦ (note (failed c q) a, none)
          | some rows ↦
              let a' = note (ran c q) a in
              if a'.in_transaction
              then (a', some rows)
              else let (a'', done) = commit c a' in (a'', if done then some rows else none)
        ]

    unfoldable pub execute : String → Adapter → Res R
    execute query a =
        let (a', got_conn) = acquire a in
        elim got_conn [
          | none ↦ (a', none)
          | some c ↦
              let (b, rows) = statement c query a' in
              (if b.in_transaction then b else release c b, rows)
        ]

    -- The statements of a `with` block, one after the other, until one raises.
    unfoldable pub block : List String → Adapter → Adapter × Bool
    block [] a = (a, true)
    block (query ∷ queries) a =
        let (a', rows) = execute query a in
        elim rows [ none ↦ (a', false) | some _ ↦ block queries a' ]

    -- The `try` of `transaction`; whether it ends without an exception.
    unfoldable pub attempt : ℕ → List String → Adapter → Adapter × Bool
    attempt c queries a =
        let (b, ended) = block queries a in
        if ended
        then (let (b', done) = commit c b in if done then (b', true) else (abort c b', false))
        else (abort c b, false)

    -- `with db.transaction():` around the statements.
    unfoldable pub transaction : List String → Adapter → Adapter × Bool
    transaction queries a =
        let (a', got_conn) = acquire (record a { in_transaction = true }) in
        elim got_conn [
          | none ↦ (a', false)
          | some c ↦ let (b, done) = attempt c queries a' in (finish b, done)
        ]

  -- `close`
  unfoldable pub close : Adapter → Adapter
  close a =
      let a' : Adapter = elim a.conn [
        | none ↦ a
        | some c ↦ note (closed c) (record a { conn = none })
      ] in
      if a'.pool then note pool_closed (record a' { pool = false }) else a'

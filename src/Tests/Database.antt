-- ===== src/Tests/Database.antt =====
-- The database adapter with drivers that always answer, and with a pool that is exhausted.
use ligp_v.Prelude.{◌≡◌, refl, true, none, some, List, [], ◌∷◌, String, arith}
use ligp_v.Database.Adapter.{
  postgres, Driver, init, acquire, connect, get_pool, from_pool, transaction,
}
use ligp_v.Database.Adapter.Returned.{IsIdle, transaction-IsIdle}

abbrev willing : Driver String
willing = record {
  connect = λ calls. some 1;
  getconn = λ calls. some 2;
  run = λ calls c q. some q;
  commit = λ calls c. true;
  rollback = λ calls c. true;
  pool_package = true;
}

abbrev exhausted : Driver String
exhausted = record willing { getconn = λ calls. none }

abbrev same : String → String
same q = q

abbrev two : List String
two = "a" ∷ "b" ∷ []

start-IsIdle : IsIdle (init postgres)
start-IsIdle = record { flag = refl; held = refl; settled = omega arith }

lent : (acquire willing (record (init postgres) { in_transaction = true })).1 ≡ some 2
unfolding acquire get_pool from_pool connect
lent = refl

transaction-IsIdle_example : IsIdle (transaction willing same two (init postgres)).0
transaction-IsIdle_example = transaction-IsIdle willing same two (init postgres) 2 start-IsIdle lent

-- ===== src/Database/Adapter/Commits.antt =====
-- What the databases keep of the calls of an adapter: a statement waits for the commit of its
-- connection, and a rollback drops what waits.
use ligp_v.Prelude.{
  ℕ, ◌≡◌, refl, true, false, none, List, [], ◌∷◌, ◌++◌, arith, if◌then◌else◌, String, nat_beq, keep,
  not, Option-cases, inl, inr,
}
use ligp_v.Database.Adapter.{
  Call, ran, failed, committed, commit_failed, rolled_back, rollback_failed, Driver, Adapter, note,
  acquire, connect, get_pool, from_pool, transaction, connected, got, put_back, closed,
  connect_failed, get_failed, pool_made, pool_closed,
}

-- The statements that wait, with their connection, and those that are kept, in order.
pub record Ledger : Type 0 where
  pub waiting : List (ℕ × String)
  pub settled : List String

abbrev pub own : ℕ → List (ℕ × String) → List String
own c [] = []
own c ((k, q) ∷ w) = let rest = own c w in if nat_beq k c then q ∷ rest else rest

abbrev pub others : ℕ → List (ℕ × String) → List (ℕ × String)
others c w = keep (λ p. not (nat_beq p.0 c)) w

abbrev pub book : Call → Ledger → Ledger
book (ran c q) l = record l { waiting = l.waiting ++ (c, q) ∷ [] }
book (committed c) l = record {
  waiting = others c l.waiting;
  settled = l.settled ++ own c l.waiting;
}
book (rolled_back c) l = record l { waiting = others c l.waiting }
book (connected c) l = l
book (got c) l = l
book (put_back c) l = l
book (commit_failed c) l = l
book (rollback_failed c) l = l
book (closed c) l = l
book (failed c q) l = l
book connect_failed l = l
book get_failed l = l
book pool_made l = l
book pool_closed l = l

abbrev pub ledger : List Call → Ledger → Ledger
ledger [] l = l
ledger (k ∷ ks) l = ledger ks (book k l)

abbrev blank : Ledger
blank = record { waiting = []; settled = [] }

ledger-append : (xs ys : List Call) (l : Ledger) → ledger (xs ++ ys) l ≡ ledger ys (ledger xs l)
ledger-append [] ys l = refl
ledger-append (k ∷ xs) ys l = ledger-append xs ys (book k l)

waits : ℕ → List String → List (ℕ × String)
waits c [] = []
waits c (q ∷ qs) = (c, q) ∷ waits c qs

-- The statements that have run wait on the connection of the transaction, and none on another.
module _ (text : String → String) (c : ℕ) where
  others-append :
      (w : List (ℕ × String)) (q : String) → others c w ≡ [] → others c (w ++ (c, q) ∷ []) ≡ []
  others-append [] q h = ground arith
  others-append ((k, p) ∷ w) q h = ground (arith, others-append w q)

-- What the databases keep of the calls of an adapter.
abbrev pub led : Adapter → Ledger
led a = ledger a.calls blank

pub led-note : (k : Call) (a : Adapter) → led (note k a) ≡ book k (led a)
led-note k a = ledger-append a.calls (k ∷ []) blank

module _ {R : Type 0} (d : Driver R) where
  led-connect : (a : Adapter) → led (connect d a).0 ≡ led a
  unfolding connect
  led-connect a = elim (Option-cases (d.connect a.calls)) [
    | inl raised ↦ ground (arith, raised, ledger-append a.calls (connect_failed ∷ []) blank)
    | inr (c, new) ↦ ground (arith, new, ledger-append a.calls (connected c ∷ []) blank)
  ]

  led-get_pool : (a : Adapter) → led (get_pool d a).0 ≡ led a
  unfolding get_pool
  led-get_pool a = ground (arith, ledger-append a.calls (pool_made ∷ []) blank)

  led-from_pool : (a : Adapter) → led (from_pool d a).0 ≡ led a
  unfolding from_pool
  led-from_pool a = elim (Option-cases (d.getconn a.calls)) [
    | inl raised ↦ ground (arith, raised, ledger-append a.calls (get_failed ∷ []) blank)
    | inr (c, new) ↦ ground (arith, new, ledger-append a.calls (got c ∷ []) blank)
  ]

  pub led-acquire : (a : Adapter) → led (acquire d a).0 ≡ led a
  unfolding acquire
  led-acquire a = ground (
    arith,
    led-connect a,
    led-get_pool a,
    led-from_pool (get_pool d a).0,
    led-connect (get_pool d a).0,
  )

  module _ (placeholders : String → String) where
    pub transaction_raised :
        (queries : List String) (a : Adapter)
        → (acquire d (record a { in_transaction = true })).1 ≡ none
        → transaction d placeholders queries a
          ≡ ((acquire d (record a { in_transaction = true })).0, false)
    unfolding transaction
    transaction_raised queries a e = ground (arith, e)

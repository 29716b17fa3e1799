-- ===== src/Database/Adapter/Leak.antt =====
-- A transaction whose connection cannot be acquired.
use ligp_v.Prelude.{List, [], ◌∷◌, String}
use ligp_v.Database.Adapter.{Driver, Adapter, execute}

-- Statements outside any `with` block, each tried whatever became of those before it.
abbrev pub each : {R : Type 0} → Driver R → (String → String) → List String → Adapter → Adapter
each d placeholders [] a = a
each d placeholders (q ∷ qs) a = each d placeholders qs (execute d placeholders q a).0

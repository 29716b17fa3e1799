-- ===== src/Ingestion/DeadLetters.antt =====
-- `DeadLetterQueue` of ingestion/base_collector.py: the items in memory and, where a path is given,
-- the lines of the JSONL file. `json.dumps` is the parameter `dumps`.
use ligp_v.Prelude.{ℕ, Bool, List, [], ◌∷◌, ◌++◌, if◌then◌else◌, String, length}

pub record Letter (P : Type 0) : Type 0 where
  pub ts : String
  pub error : String
  pub retries : ℕ
  pub payload : P

-- `has_path` is `path is not None`; `file` holds the lines written to it so far.
pub record DeadLetterQueue (P : Type 0) : Type 0 where
  pub max_retries : ℕ
  pub has_path : Bool
  pub items : List (Letter P)
  pub file : List String

module _ {P : Type 0} where
  unfoldable pub push :
      (Letter P → String) → String → P → String → ℕ → DeadLetterQueue P → DeadLetterQueue P
  push dumps ts payload error retries q =
      let letter : Letter P = record {
        ts = ts;
        error = error;
        retries = retries;
        payload = payload;
      } in
      let q' = record q { items = q.items ++ letter ∷ [] } in
      if q.has_path then record q' { file = q'.file ++ dumps letter ∷ [] } else q'

  -- `__len__`
  unfoldable pub len : DeadLetterQueue P → ℕ
  len q = length q.items

  unfoldable pub drain : DeadLetterQueue P → DeadLetterQueue P × List (Letter P)
  drain q = (record q { items = [] }, q.items)

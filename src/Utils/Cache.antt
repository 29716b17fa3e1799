-- ===== src/Utils/Cache.antt =====
-- utils/cache.py. `digest` is the first twelve hexadecimal digits of the MD5 hash. Redis is a
-- state `S` with its four commands; `up` says whether a call reaches it. `dumps` and `loads` are those
-- of orjson.
pub mod Roundtrip
use ligp_v.Prelude.{
  ℕ, suc, ◌+◌, Bool, true, false, not, ◌||◌, Option, none, some, List, [], ◌∷◌, arith,
  if◌then◌else◌, String, concat, leb, nat_beq, or_default, nonempty, is_some, string_eq,
}
use ligp_v.Dict.{Dict, get, put, remove}

abbrev pub ttl_map : Dict String ℕ
ttl_map =
    ("embedding", 604800)
    ∷ ("graph_score", 3600)
    ∷ ("naver", 600)
    ∷ ("youtube", 1800)
    ∷ ("ctr", 86400)
    ∷ []

-- `":".join(...)` of the arguments' texts.
abbrev pub joined : List String → String
joined [] = ""
joined (a ∷ []) = a
joined (a ∷ b ∷ args) = concat a (concat ":" (joined (b ∷ args)))

unfoldable pub cache_key : (String → String) → String → List String → String
cache_key digest namespace args =
    concat "iigp:" (concat namespace (concat ":" (digest (joined args))))

unfoldable pub default_ttl : String → ℕ
default_ttl namespace = or_default (get namespace ttl_map) 300

-- `RedisCache`; `connected` says that `_client` is set.
pub record RedisCache : Type 0 where
  pub connected : Bool

-- The commands that the client sends.
pub record Redis (S : Type 0) : Type 0 where
  pub up : S → Bool
  pub get_text : String → S → Option String
  pub setex : String → ℕ → String → S → S
  pub del : String → S → S
  pub has : String → S → Bool

module _ {S : Type 0} (r : Redis S) where
  -- `_get_client`, with the cache that it leaves.
  unfoldable pub get_client : S → RedisCache → RedisCache × Bool
  get_client s c = if c.connected then (c, true) else (record { connected = r.up s }, r.up s)

  module _ {V : Type 0} (dumps : V → String) (loads : String → Option V)
      (namespace_of : String → String) where
    -- `get`; an exception of the call or of `loads` gives None.
    unfoldable pub lookup : String → S → RedisCache → RedisCache × Option V
    lookup key s c =
        let (c', client) = get_client s c in
        if not client || not (r.up s) then (c', none) else elim (r.get_text key s) [
          | none ↦ (c', none)
          | some raw ↦ (c', if nonempty raw then loads raw else none)
        ]

    -- `set`; `namespace_of` is `key.split(":")[1]`, or `"default"` for a key without a colon.
    unfoldable pub set : String → V → Option ℕ → S → RedisCache → RedisCache × S
    set key value ttl_seconds s c =
        let (c', client) = get_client s c in
        if not client || not (r.up s)
        then (c', s)
        else let asked = or_default ttl_seconds 0 in
          let ttl = if nat_beq asked 0 then default_ttl (namespace_of key) else asked in
          (c', r.setex key ttl (dumps value) s)

  unfoldable pub delete : String → S → RedisCache → RedisCache × S
  delete key s c =
      let (c', client) = get_client s c in
      if not client || not (r.up s) then (c', s) else (c', r.del key s)

  unfoldable pub exists : String → S → RedisCache → RedisCache × Bool
  exists key s c =
      let (c', client) = get_client s c in
      if not client || not (r.up s) then (c', false) else (c', r.has key s)

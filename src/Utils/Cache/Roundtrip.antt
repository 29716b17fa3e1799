-- ===== src/Utils/Cache/Roundtrip.antt =====
-- What is read back from the cache, and what happens without Redis.
use ligp_v.Prelude.{ℕ, ◌≡◌, ◌<◌, true, Option, some, arith, String, nonempty, string_eq, ap, ◌∙◌}
use ligp_v.Utils.Cache.{Redis, RedisCache, get_client, lookup, set}

-- What Redis documents of SETEX and GET: a text that was just set for some time is there, and to set
-- one does not take the server down.
pub record IsRedis {S : Type 0} (r : Redis S) : Type 0 where
  pub get-setex :
      (key text : String) (ttl : ℕ) (s : S)
      → 0 < ttl
      → r.get_text key (r.setex key ttl text s) ≡ some text
  pub up-setex : (key text : String) (ttl : ℕ) (s : S) → r.up (r.setex key ttl text s) ≡ r.up s

module _ {S V : Type 0} (r : Redis S) (dumps : V → String) (loads : String → Option V)
    (namespace_of : String → String) where
  get_client_up : (s : S) (c : RedisCache) → r.up s ≡ true → (get_client r s c).1 ≡ true
  unfolding get_client
  get_client_up s c up = ground arith

  lookup_up :
      (key text : String) (s : S) (c : RedisCache)
      → r.up s ≡ true
      → r.get_text key s ≡ some text
      → nonempty text ≡ true
      → (lookup r dumps loads namespace_of key s c).1 ≡ loads text
  unfolding lookup
  lookup_up key text s c up there full = rw (get_client_up s c up, up, there, full, lookup)

  set_up :
      (key : String) (value : V) (ttl : ℕ) (s : S) (c : RedisCache)
      → r.up s ≡ true
      → 0 < ttl
      → (set r dumps loads namespace_of key value (some ttl) s c).1
        ≡ r.setex key ttl (dumps value) s
  unfolding set
  set_up key value ttl s c up p = rw (get_client_up s c up, up, set) (ground arith)

  -- With the server up, a value that is set for a positive time is what `get` then returns, whatever
  -- the state of the two clients, if `loads` reads what `dumps` has written of it and that is not
  -- empty.
  pub lookup-set :
      (key : String) (value : V) (ttl : ℕ) (s : S) (c c' : RedisCache)
      → IsRedis r
      → r.up s ≡ true
      → 0 < ttl
      → loads (dumps value) ≡ some value
      → nonempty (dumps value) ≡ true
      → (lookup r dumps loads namespace_of key
          (set r dumps loads namespace_of key value (some ttl) s c).1
          c').1
        ≡ some value
  lookup-set key value ttl s c c' h up p read full =
      let written = r.setex key ttl (dumps value) s in
      ap (λ t. (lookup r dumps loads namespace_of key t c').1) (set_up key value ttl s c up p)
      ∙ lookup_up key (dumps value) written c' (h.up-setex key (dumps value) ttl s ∙ up)
          (h.get-setex key (dumps value) ttl s p) full
      ∙ read

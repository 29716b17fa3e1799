-- ===== src/Api/Auth/Verdicts.antt =====
-- When a request is let through.
use ligp_v.Prelude.{
  not, ◌&&◌, ◌≡◌, refl, Option, none, some, List, [], ◌∷◌, arith, if◌then◌else◌, String, or_default,
  string_eq, ◌==◌, eq_iff, nonempty, inl, inr, Bool-cases, ap, ◌∙◌,
}
use ligp_v.Dict.{get}
use ligp_v.Api.Auth.{
  is_public, Scope, get_api_key, dict_of, verify, Verdict, forwarded, unauthorized, call,
}

-- The key that a request carries.
abbrev pub request_key : (String → String) → Scope → String
request_key decode scope = decode (or_default (get "x-api-key" (dict_of scope.headers [])) "")

-- The key in force: the cached one, or else the one of the environment; the empty text if there is
-- none.
abbrev pub key_in_force : Option String → Option String → String
key_in_force env cache = or_default cache (or_default env "")

found_key :
    (env cache : Option String) → or_default (get_api_key env cache).1 "" ≡ key_in_force env cache
unfolding get_api_key
found_key none none = refl
found_key (some key) none = ground (arith, eq_iff key "")
found_key env (some key) = refl

abbrev answer : String → String → Verdict
answer key sent = if nonempty key && not (sent == key) then unauthorized else forwarded

verify_lem :
    (cache api_key : Option String) (sent : String)
    → (verify cache api_key sent).1 ≡ answer (or_default api_key "") sent
unfolding verify
verify_lem cache none sent = refl
verify_lem cache (some key) sent = elim (Bool-cases (nonempty key)) [
  | inr p ↦ rw p
  | inl p ↦ elim (Bool-cases (sent == key)) [ inl q ↦ rw (p, q) | inr q ↦ rw (p, q) ]
]

-- A request is answered 401 exactly when it is an HTTP request for a path that is not public, a key
-- is in force, and the request does not carry that key; every other request is forwarded.
pub call_lem :
    (decode : String → String) (env cache : Option String) (scope : Scope)
    → (call decode env cache scope).1 ≡ (
        if (or_default scope.type "" == "http" && not (is_public (or_default scope.path "")))
          && (nonempty (key_in_force env cache)
              && not (request_key decode scope == key_in_force env cache))
        then unauthorized
        else forwarded)
unfolding call
call_lem decode env cache scope = elim (Bool-cases (or_default scope.type "" == "http")) [
  | inr p ↦ rw (p, call)
  | inl p ↦ elim (Bool-cases (is_public (or_default scope.path ""))) [
    | inl q ↦ rw (p, q, call)
    | inr q ↦
        let (cache', api_key) = get_api_key env cache in
        let sent = request_key decode scope in
        rw (p, q, call)
          (verify_lem cache' api_key sent ∙ ap (λ k. answer k sent) (found_key env cache))
  ]
]

-- Requests after one that has cached a key.
unfoldable pub serve :
    (String → String) → Option String → List (Option String × Scope) → List Verdict
serve decode cache [] = []
serve decode cache ((env, scope) ∷ requests) =
    let (cache', verdict) = call decode env cache scope in verdict ∷ serve decode cache' requests

abbrev pub answers : (String → String) → String → List (Option String × Scope) → List Verdict
answers decode key [] = []
answers decode key ((env, scope) ∷ requests) =
    (call decode none (some key) scope).1 ∷ answers decode key requests

cached :
    (decode : String → String) (env : Option String) (key : String) (scope : Scope)
    → call decode env (some key) scope ≡ (some key, (call decode none (some key) scope).1)
unfolding call get_api_key verify
cached decode env key scope = ground arith

-- Once a key is cached, the environment is not read again: whatever it holds from then on, each
-- request is answered by the cached key.
pub serve_cached :
    (decode : String → String) (key : String) (requests : List (Option String × Scope))
    → serve decode (some key) requests ≡ answers decode key requests
unfolding serve
serve_cached decode key [] = refl
serve_cached decode key ((env, scope) ∷ requests) =
    rw (cached decode env key scope, serve_cached decode key requests)

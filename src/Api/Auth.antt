-- ===== src/Api/Auth.antt =====
-- api/middleware/auth.py. The process has the cached key `_API_KEY` and an environment, of which only
-- `API_SECRET_KEY` is read. Header names are compared as texts, and `decode` is
-- `bytes.decode("utf-8", errors="ignore")`.
pub mod Verdicts
use ligp_v.Prelude.{
  Bool, true, false, not, ◌||◌, ◌≡◌, Option, none, some, List, [], ◌∷◌, arith, if◌then◌else◌,
  String, or_default, string_eq, ◌==◌, starts_with, nonempty, truthy,
}
use ligp_v.Dict.{Dict, get, put}

abbrev pub public_prefixes : List String
public_prefixes =
    "/health" ∷ "/ready" ∷ "/version" ∷ "/metrics" ∷ "/admin" ∷ "/docs" ∷ "/redoc" ∷ "/openapi.json"
    ∷ []

-- `any(path.startswith(p) for p in prefixes)`
abbrev pub any_prefix : List String → String → Bool
any_prefix [] path = false
any_prefix (p ∷ prefixes) path = starts_with path p || any_prefix prefixes path

unfoldable pub is_public : String → Bool
is_public path = path == "/" || any_prefix public_prefixes path

-- What an ASGI scope says of a request; a key that is not there is `none`.
pub record Scope : Type 0 where
  pub type : Option String
  pub path : Option String
  pub headers : List (String × String)

-- `_get_api_key`, with the cache before and after; an empty variable counts as unset.
unfoldable pub get_api_key : Option String → Option String → Option String × Option String
get_api_key env none = let key = if truthy env then env else none in (key, key)
get_api_key env (some key) = (some key, some key)

-- `dict(pairs)`: of two pairs with one key the later one counts.
unfoldable pub dict_of : List (String × String) → Dict String String → Dict String String
dict_of [] d = d
dict_of ((k, v) ∷ pairs) d = dict_of pairs (put k v d)

pub data Verdict : Type 0 where
  forwarded unauthorized : Verdict

-- `__call__` from `if not api_key` on.
unfoldable pub verify : Option String → Option String → String → Option String × Verdict
verify cache none request_key = (cache, forwarded)
verify cache (some key) request_key =
    if not (nonempty key)
    then (cache, forwarded)
    else if not (request_key == key)
    then (cache, unauthorized)
    else (cache, forwarded)

unfoldable pub call :
    (String → String) → Option String → Option String → Scope → Option String × Verdict
call decode env cache scope =
    if not (or_default scope.type "" == "http")
    then (cache, forwarded)
    else if is_public (or_default scope.path "")
    then (cache, forwarded)
    else let (cache', api_key) = get_api_key env cache in
      verify cache' api_key (decode (or_default (get "x-api-key" (dict_of scope.headers [])) ""))

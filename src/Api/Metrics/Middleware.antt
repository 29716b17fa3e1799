-- ===== src/Api/Metrics/Middleware.antt =====
-- `normalize_path` and `PrometheusMiddleware` of api/metrics.py. The wrapped application is a
-- function on the world and the metrics; it sends messages, and returns or raises.
use ligp_v.Prelude.{
  ℕ, ◌+◌, ◌≡◌, refl, true, not, Option, List, [], ◌∷◌, arith, if◌then◌else◌, String, or_default,
  nonempty, string_eq, nat_eq, pair_eq, ap, ◌∙◌, ◌==◌,
}
use ligp_v.Dict.{get, get-put_self}
use ligp_v.Prelude.Int.{ℤ, pos, negsuc, ◌+ℤ◌}
use ligp_v.Api.Metrics.{Metrics, track_in_progress, observe, inc}

-- A scope: `route` is the matched route's path template.
pub record Scope : Type 0 where
  pub type : Option String
  pub method : Option String
  pub route : Option String
  pub path : Option String

unfoldable pub normalize_path : Scope → String
normalize_path scope =
    let template = or_default scope.route "" in
    let raw = or_default scope.path "/" in
    if nonempty template then template else if nonempty raw then raw else "/"

-- A message: its type and its status.
pub record Message : Type 0 where
  pub type : Option String
  pub status : Option ℕ

-- `send_wrapper` over the messages sent, from the code held so far.
unfoldable pub status_after : ℕ → List Message → ℕ
status_after code [] = code
status_after code (m ∷ messages) =
    status_after
      (if or_default m.type "" == "http.response.start" then or_default m.status 500 else code)
      messages

-- How the application ends.
pub data Ending : Type 0 where
  returned raised : Ending

module _ {D S : Type 0} (duration : S → S → D)
    (app : Scope → S → Metrics D → (Ending × List Message) × (S × Metrics D)) where
  -- `__call__`; `duration` is the time between two states of the world.
  unfoldable pub call : Scope → S → Metrics D → (Ending × List Message) × (S × Metrics D)
  call scope s m =
      if not (or_default scope.type "" == "http")
      then app scope s m
      else let method = or_default scope.method "GET" in
        let path = normalize_path scope in
        let ((ending, messages), (s', m')) =
          app scope s (track_in_progress method path (pos 1) m) in
        (
          (ending, messages),
          (
            s',
            observe method path (status_after 500 messages) (duration s s')
                (track_in_progress method path (negsuc 0) m'),
          ),
        )

up_down : (z : ℤ) → z +ℤ pos 1 +ℤ negsuc 0 ≡ z
unfolding ◌+ℤ◌
up_down (pos n) = ground arith
up_down (negsuc n) = ground arith

-- The number of requests in progress under some labels, and the requests counted.
abbrev pub progress : {D : Type 0} → String → String → Metrics D → ℤ
progress method path m = or_default (get (method, path) m.in_progress) (pos 0)

abbrev pub requests : {D : Type 0} → String → String → ℕ → Metrics D → ℕ
requests method path code m = or_default (get ((method, path), code) m.requests_total) 0

module _ {D : Type 0} where
  progress-track_in_progress :
      (method path : String) (delta : ℤ) (m : Metrics D)
      → m.available ≡ true
      → progress method path (track_in_progress method path delta m)
        ≡ progress method path m +ℤ delta
  unfolding track_in_progress
  progress-track_in_progress method path delta m on =
      let k : String × String = (method, path) in
      rw on (
        ap (λ o. or_default o (pos 0))
          (get-put_self k (or_default (get k m.in_progress) (pos 0) +ℤ delta) m.in_progress))

  kept-track_in_progress :
      (method path : String) (delta : ℤ) (m : Metrics D)
      → ((track_in_progress method path delta m).available ≡ m.available)
        × ((track_in_progress method path delta m).requests_total ≡ m.requests_total)
  unfolding track_in_progress
  kept-track_in_progress method path delta m = ground arith

  observed :
      (method path : String) (code : ℕ) (d : D) (m : Metrics D)
      → m.available ≡ true
      → ((observe method path code d m).in_progress ≡ m.in_progress)
        × (requests method path code (observe method path code d m)
            ≡ requests method path code m + 1)
  unfolding observe inc
  observed method path code d m on =
      let k : (String × String) × ℕ = ((method, path), code) in
      rw on (
        refl,
        ap (λ o. or_default o 0)
            (get-put_self k (or_default (get k m.requests_total) 0 + 1) m.requests_total),
      )

module _ {D S : Type 0} (duration : S → S → D)
    (app : Scope → S → Metrics D → (Ending × List Message) × (S × Metrics D)) where
  -- What the application leaves of the metrics it is given.
  abbrev pub LeavesAlone : Scope → Type 0
  LeavesAlone scope =
      (s : S) (m : Metrics D)
      → ((app scope s m).1.1.available ≡ m.available)
        × ((app scope s m).1.1.in_progress ≡ m.in_progress)
        × ((app scope s m).1.1.requests_total ≡ m.requests_total)

  -- The middleware around an application that records nothing itself: whether that returns or
  -- raises, its answer is passed on, the requests in progress under the labels of an HTTP request are
  -- as many as before, and one more request is counted under the last status that was sent, or 500.
  pub call_balanced :
      (scope : Scope) (s : S) (m : Metrics D)
      → (or_default scope.type "" == "http") ≡ true
      → m.available ≡ true
      → LeavesAlone scope
      → let method = or_default scope.method "GET" in
        let path = normalize_path scope in
        let inner = app scope s (track_in_progress method path (pos 1) m) in
        let code = status_after 500 inner.0.1 in
        ((call duration app scope s m).0 ≡ inner.0)
        × (progress method path (call duration app scope s m).1.1 ≡ progress method path m)
        × (requests method path code (call duration app scope s m).1.1
            ≡ requests method path code m + 1)
  unfolding call
  call_balanced scope s m http on alone =
      let method = or_default scope.method "GET" in
      let path = normalize_path scope in
      let started = track_in_progress method path (pos 1) m in
      let (answer, (s', m')) = app scope s started in
      let code = status_after 500 answer.1 in
      let (on', same, total) = alone s started in
      let (on_started, total_started) = kept-track_in_progress method path (pos 1) m in
      let on_after : m'.available ≡ true = on' ∙ on_started ∙ on in
      let stopped = track_in_progress method path (negsuc 0) m' in
      let (on_stopped, total_stopped) = kept-track_in_progress method path (negsuc 0) m' in
      let seen = observed method path code (duration s s') stopped (on_stopped ∙ on_after) in
      let balanced : progress method path stopped ≡ progress method path m =
        progress-track_in_progress method path (negsuc 0) m' on_after
        ∙ ap (λ d. or_default (get {K = String × String} (method, path) d) (pos 0) +ℤ negsuc 0) same
        ∙ ap (λ z. z +ℤ negsuc 0) (progress-track_in_progress method path (pos 1) m on)
        ∙ up_down (progress method path m) in
      rw http (
        refl,
        ap (λ d. or_default (get {K = String × String} (method, path) d) (pos 0)) seen.0 ∙ balanced,
        seen.1
            ∙ ap (λ d. or_default (get {K = (String × String) × ℕ} ((method, path), code) d) 0 + 1)
                (total_stopped ∙ total ∙ total_started),
      )

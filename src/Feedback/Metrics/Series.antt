-- ===== src/Feedback/Metrics/Series.antt =====
-- What is read after any series of recorded snapshots.
use mathlib.Core.List.{append-nil, append_assoc}
use ligp_v.Prelude.{
  ◌≡◌, ◌≢◌, refl, sym, ◌∙◌, ap, Bool, true, false, some, List, [], ◌∷◌, ◌++◌, arith, if◌then◌else◌,
  String, Eq, or_default, Bool-cases, inl, inr, All, last?,
}
use ligp_v.Dict.{Dict, get, get-put}
use ligp_v.Feedback.Metrics.{
  Snapshot, Format, Store, metric_keys, chosen, path, record_metrics, parsed, get_time_series,
  get_latest, splitlines, strip,
}

-- The arguments of a call of `record`, with the time of it.
pub record Report (C V : Type 0) : Type 0 where
  pub now : String
  pub content_id : List C
  pub platform : String
  pub metrics : Dict String V

abbrev pub snapshot : {C V : Type 0} → Report C V → Snapshot C V
snapshot r = record {
  content_id = r.content_id;
  platform = r.platform;
  ts = r.now;
  metrics = chosen metric_keys r.metrics;
}

-- No character of the text ends a line.
abbrev pub Unbroken : {C : Type 0} → (C → Bool) → List C → Type 0
Unbroken ends_line text = All (λ c. ends_line c ≡ false) text

-- What is relied on of JSON and `strip` for a snapshot: its text is not empty, neither begins nor ends
-- with white space, and is read back. And no character of the text ends a line, as `ensure_ascii` would
-- see to.
pub record IsCoded {C V : Type 0} (m : Format C V) (x : Snapshot C V) : Type 0 where
  pub strip-dumps : strip m.blank (m.dumps x) ≡ m.dumps x
  pub dumps-ne-nil : m.dumps x ≢ []
  pub loads-dumps : m.loads (m.dumps x) ≡ some x
  pub unbroken : Unbroken m.ends_line (m.dumps x)

splitlines-line :
    {C : Type 0} (ends_line : C → Bool) (newline : C) (line rest : List C)
    → ends_line newline ≡ true
    → Unbroken ends_line line
    → splitlines ends_line (line ++ newline ∷ rest) ≡ line ∷ splitlines ends_line rest
unfolding splitlines
splitlines-line ends_line newline [] rest h u = rw h refl
splitlines-line ends_line newline (c ∷ line) rest h u =
    rw (u.0, splitlines-line ends_line newline line rest h u.1) refl

module _ {C V : Type 0} ⦃e : Eq C⦄ ⦃n : Eq (List C)⦄ (m : Format C V) where
  -- The directory after the calls of `record`, one after the other.
  abbrev pub recorded : List (Report C V) → Store C → Store C
  recorded [] store = store
  recorded (r ∷ reports) store =
      recorded reports (record_metrics m r.now r.content_id r.platform r.metrics store)

  -- The snapshots of the calls whose id has the name of the file of `id`, in order.
  abbrev pub snapshots : List C → List (Report C V) → List (Snapshot C V)
  snapshots id [] = []
  snapshots id (r ∷ reports) =
      let rest = snapshots id reports in
      if n.beq (path m r.content_id) (path m id) then snapshot r ∷ rest else rest

  -- The text of the lines of some snapshots.
  abbrev text_of : List (Snapshot C V) → List C
  text_of [] = []
  text_of (x ∷ xs) = m.dumps x ++ m.newline ∷ text_of xs

  abbrev file : List C → Store C → List C
  file id store = or_default (get (path m id) store) []

  file-record_metrics :
      (r : Report C V) (id : List C) (store : Store C)
      → file id (record_metrics m r.now r.content_id r.platform r.metrics store) ≡ (
          if n.beq (path m r.content_id) (path m id)
          then file id store ++ (m.dumps (snapshot r) ++ m.newline ∷ [])
          else file id store)
  unfolding record_metrics
  file-record_metrics r id store = ground (
    arith,
    get-put (path m r.content_id) (path m id)
        (file r.content_id store ++ (m.dumps (snapshot r) ++ m.newline ∷ [])) store,
    n.beq_iff (path m r.content_id) (path m id),
  )

  file-recorded :
      (reports : List (Report C V)) (id : List C) (store : Store C)
      → file id (recorded reports store) ≡ file id store ++ text_of (snapshots id reports)
  file-recorded [] id store = sym (append-nil (file id store))
  file-recorded (r ∷ reports) id store =
      let later =
        file-recorded reports id (record_metrics m r.now r.content_id r.platform r.metrics store) in
      let this = file-record_metrics r id store in
      elim (Bool-cases (n.beq (path m r.content_id) (path m id))) [
        | inr apart ↦
            rw apart (later ∙ ap (λ f. f ++ text_of (snapshots id reports)) (rw apart at this))
        | inl same ↦ rw same (
            later
            ∙ ap (λ f. f ++ text_of (snapshots id reports)) (rw same at this)
            ∙ append_assoc (file id store) (m.dumps (snapshot r) ++ m.newline ∷ [])
                (text_of (snapshots id reports))
            ∙ ap (λ f. file id store ++ f)
                (append_assoc (m.dumps (snapshot r)) (m.newline ∷ [])
                  (text_of (snapshots id reports))))
      ]

  All-snapshots :
      (P : Snapshot C V → Type 0) (reports : List (Report C V)) (id : List C)
      → All (λ r. P (snapshot r)) reports
      → All P (snapshots id reports)
  All-snapshots P [] id u = tt
  All-snapshots P (r ∷ reports) id u = elim (Bool-cases (n.beq (path m r.content_id) (path m id))) [
    | inl same ↦ rw same (u.0, All-snapshots P reports id u.1)
    | inr apart ↦ rw apart (All-snapshots P reports id u.1)
  ]

  parsed-line :
      (line : List C) (lines : List (List C)) (x : Snapshot C V) (xs : List (Snapshot C V))
      → strip m.blank line ≡ line
      → line ≢ []
      → m.loads line ≡ some x
      → parsed m lines ≡ some xs
      → parsed m (line ∷ lines) ≡ some (x ∷ xs)
  unfolding parsed
  parsed-line [] lines x xs h k l p = absurd (k refl)
  parsed-line (c ∷ cs) lines x xs h k l p = ground (arith, h, l, p)

  parsed-text_of :
      (xs : List (Snapshot C V))
      → m.ends_line m.newline ≡ true
      → All (IsCoded m) xs
      → parsed m (splitlines m.ends_line (text_of xs)) ≡ some xs
  parsed-text_of [] feed u = unfold parsed splitlines in refl
  parsed-text_of (x ∷ xs) feed (c, u) =
      rw (splitlines-line m.ends_line m.newline (m.dumps x) (text_of xs) feed c.unbroken) (
        parsed-line (m.dumps x) (splitlines m.ends_line (text_of xs)) x xs c.strip-dumps
          c.dumps-ne-nil c.loads-dumps (parsed-text_of xs feed u))

  -- If a line feed ends a line, and JSON reads back the texts of the recorded snapshots, of which none
  -- holds a character at which `splitlines` splits, then after any calls of `record` on an empty
  -- directory the series of every id can be read: it has the snapshots of all calls whose id has the
  -- same name of a file, in order, and the last of them is the latest.
  pub record_metrics_lem :
      (reports : List (Report C V)) (id : List C)
      → m.ends_line m.newline ≡ true
      → All (λ r. IsCoded m (snapshot r)) reports
      → (get_time_series m id (recorded reports []) ≡ some (snapshots id reports))
        × (get_latest m id (recorded reports []) ≡ some (last? (snapshots id reports)))
  unfolding get_latest get
  record_metrics_lem reports id feed u = (series, ground (arith, series))
    where
      series : get_time_series m id (recorded reports []) ≡ some (snapshots id reports)
      series =
          unfold get_time_series in
          (ap (λ text. parsed m (splitlines m.ends_line text)) (file-recorded reports id [])
            ∙ parsed-text_of (snapshots id reports) feed (All-snapshots (IsCoded m) reports id u))

-- ===== src/Graph/Versioning/History.antt =====
-- The history is bounded, and a snapshot stays available until enough newer ones have come.
use ligp_v.Prelude.{
  ℕ, zero, suc, ◌+◌, ◌-◌, ◌≤◌, ◌<◌, ◌≡◌, min, refl, some, List, [], ◌∷◌, ◌++◌, arith, String,
  length, drop, last?, length-append, length-drop, last?-append, string_eq,
}
use ligp_v.Graph.Store.{GraphStore}
use ligp_v.Graph.Versioning.{
  GraphVersioning, append_bounded, create_snapshot, snapshot_of, latest, name,
}

length-append_bounded :
    {A : Type 0} (maxlen : ℕ) (xs : List A) (x : A)
    → length (append_bounded maxlen xs x) ≡ min maxlen (length xs + 1)
unfolding append_bounded
length-append_bounded maxlen xs x =
    omega (arith, length-drop (length xs + 1 - maxlen) (xs ++ x ∷ []), length-append xs (x ∷ []))

last?-drop :
    {A : Type 0} (n : ℕ) (xs : List A) (x : A)
    → n ≤ length xs
    → last? (drop n (xs ++ x ∷ [])) ≡ some x
last?-drop zero xs x h = last?-append xs x
last?-drop (suc n) [] x h = absurd (omega arith)
last?-drop (suc n) (y ∷ xs) x h = last?-drop n xs x (omega arith)

module _ {W : Type 0} (str : ℕ → String) (stamp now : String) (g : GraphStore W)
    (label : String) where
  -- After `create_snapshot` the history is one longer, but never longer than `keep_versions`; if that
  -- is positive its newest snapshot is the new one, with the nodes and edges of the store, the name
  -- returned, and the snapshot before it as its parent.
  pub create_snapshot_lem :
      (v : GraphVersioning W)
      → 0 < v.keep_versions
      → let after = create_snapshot str stamp now g label v in
        (length after.0.snapshots ≡ min v.keep_versions (length v.snapshots + 1))
        × (latest after.0 ≡ some (snapshot_of after.1 label now (latest v) g))
        × (after.0.counter ≡ v.counter + 1)
        × (after.0.keep_versions ≡ v.keep_versions)
  unfolding create_snapshot
  create_snapshot_lem v h =
      let snap = snapshot_of (name str (v.counter + 1) stamp) label now (latest v) g in
      (
        length-append_bounded v.keep_versions v.snapshots snap,
        last?-drop (length v.snapshots + 1 - v.keep_versions) v.snapshots snap (omega arith),
        refl,
        refl,
      )

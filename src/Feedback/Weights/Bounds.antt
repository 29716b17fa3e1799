-- ===== src/Feedback/Weights/Bounds.antt =====
-- The bounds of the weights.
use ligp_v.Prelude.{◌≡◌, some, List, [], ◌∷◌, arith, String, string_eq, or_default}
use ligp_v.Dict.{get, get-put}
use ligp_v.Graph.Weights.{Weighing, AtMost}
use ligp_v.Feedback.Weights.{Floats, Updater, clamp, apply_bounds, update}

module _ {W : Type 0} ⦃o : Weighing W⦄ where
  clamp_bounds :
      (value low high : W)
      → AtMost low high
      → AtMost low (clamp value low high) × AtMost (clamp value low high) high
  unfolding clamp
  clamp_bounds value low high h = ground (
    arith,
    o.less_irrefl low,
    o.less_irrefl high,
    o.less_trans low value high,
    o.less_trans low value low,
    o.less_trans value high value,
    o.less_trans high value high,
    o.less_irrefl value,
    o.less_total low high,
    o.less_total value high,
  )

  -- Every weight is within the bounds.
  abbrev pub Bounded : Updater W → Type 0
  Bounded u =
      (component : String) (w : W)
      → get component u.weights ≡ some w
      → AtMost u.w_min w × AtMost w u.w_max

module _ {W : Type 0} ⦃o : Weighing W⦄ ⦃f : Floats W⦄ where
  -- The updates of a run: a component with what was measured, what was expected and a gradient.
  abbrev pub updates : List (String × W × W × W) → Updater W → Updater W
  updates [] u = u
  updates (x ∷ xs) u = updates xs (update x.0 x.1 x.2 x.3 u).0

  update-Bounded :
      (component : String) (actual expected gradient : W) (u : Updater W)
      → AtMost u.w_min u.w_max
      → Bounded u
      → Bounded (update component actual expected gradient u).0
  unfolding update apply_bounds
  update-Bounded component actual expected gradient u h b k w at =
      let old = or_default (get component u.weights) f.one_of in
      let grad = clamp gradient (f.negate u.grad_clip) u.grad_clip in
      let raw = f.add old (f.mul (f.mul u.lr (f.sub actual expected)) grad) in
      let fresh = clamp raw u.w_min u.w_max in
      ground (arith, get-put component k fresh u.weights, clamp_bounds raw u.w_min u.w_max h, b k w)

  -- If the configured bounds are in order, weights that are within them stay so through all updates.
  updates-Bounded :
      (xs : List (String × W × W × W)) (u : Updater W)
      → AtMost u.w_min u.w_max
      → Bounded u
      → Bounded (updates xs u)
  unfolding update
  updates-Bounded [] u h b = b
  updates-Bounded (x ∷ xs) u h b =
      updates-Bounded xs (update x.0 x.1 x.2 x.3 u).0 h (update-Bounded x.0 x.1 x.2 x.3 u h b)

-- ===== src/Feedback/Weights.antt =====
-- `WeightUpdater` of feedback_engine/weight_updater.py over an interface of floats. The configuration
-- gives its numbers; the log and the file of weights are left out.
pub mod Bounds
use ligp_v.Prelude.{
  ℕ, Bool, true, false, Option, arith, if◌then◌else◌, String, string_eq, or_default,
}
use ligp_v.Dict.{Dict, get, put}
use ligp_v.Graph.Weights.{Weighing, max_of}

pub record Floats (W : Type 0) : Type 0 where
  pub one_of : W
  pub add : W → W → W
  pub sub : W → W → W
  pub mul : W → W → W
  pub negate : W → W

pub record Updater (W : Type 0) : Type 0 where
  pub lr : W
  pub w_min : W
  pub w_max : W
  pub grad_clip : W
  pub weights : Dict String W

module _ {W : Type 0} ⦃o : Weighing W⦄ where
  -- `max(low, min(high, value))`
  unfoldable pub clamp : W → W → W → W
  clamp value low high = max_of low (if o.less value high then value else high)

  unfoldable pub apply_bounds : Updater W → W → W
  apply_bounds u weight = clamp weight u.w_min u.w_max

module _ {W : Type 0} ⦃o : Weighing W⦄ ⦃f : Floats W⦄ where
  unfoldable pub update : String → W → W → W → Updater W → Updater W × W
  update component actual expected gradient u =
      let old = or_default (get component u.weights) f.one_of in
      let error = f.sub actual expected in
      let grad = clamp gradient (f.negate u.grad_clip) u.grad_clip in
      let fresh = apply_bounds u (f.add old (f.mul (f.mul u.lr error) grad)) in
      (record u { weights = put component fresh u.weights }, fresh)

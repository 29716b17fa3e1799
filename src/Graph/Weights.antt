-- ===== src/Graph/Weights.antt =====
-- The floats of the graph, as far as the store uses them: a test `<` and what Python's `max` makes
-- of it. The laws hold of floats without NaN.
use ligp_v.Prelude.{ℕ, ◌≡◌, Bool, true, false, arith, ltb, if◌then◌else◌}

pub record Weighing (W : Type 0) : Type 0 where
  pub less : W → W → Bool
  pub less_irrefl : (a : W) → less a a ≡ false
  pub less_trans : (a b c : W) → less a b ≡ true → less b c ≡ true → less a c ≡ true
  pub less_total : (a b : W) → less a b ≡ false → less b a ≡ false → a ≡ b

-- `max(a, b)`: `b` only if it is greater.
abbrev pub max_of : {W : Type 0} ⦃o : Weighing W⦄ → W → W → W
max_of ⦃o⦄ a b = if o.less a b then b else a

-- `a <= b`, over floats without NaN.
abbrev pub AtMost : {W : Type 0} ⦃o : Weighing W⦄ → W → W → Type 0
AtMost ⦃o⦄ a b = o.less b a ≡ false

pub ltb_irrefl : (a : ℕ) → ltb a a ≡ false
ltb_irrefl a = ground arith

pub ltb_trans : (v w u : ℕ) → ltb v w ≡ true → ltb w u ≡ true → ltb v u ≡ true
ltb_trans v w u p q = ground arith

pub ltb_total : (a b : ℕ) → ltb a b ≡ false → ltb b a ≡ false → a ≡ b
ltb_total a b h k = ground arith

instance abbrev pub nat_weighing : Weighing ℕ
nat_weighing = record {
  less = ltb;
  less_irrefl = ltb_irrefl;
  less_trans = ltb_trans;
  less_total = ltb_total;
}

module _ {W : Type 0} ⦃o : Weighing W⦄ where
  pub max_comm : (a b : W) → max_of a b ≡ max_of b a
  max_comm a b = ground (arith, o.less_irrefl a, o.less_trans a b a, o.less_total a b)

  pub max_assoc : (a b c : W) → max_of (max_of a b) c ≡ max_of a (max_of b c)
  max_assoc a b c = ground (
    arith,
    o.less_trans a b c,
    o.less_trans a c b,
    o.less_trans b a c,
    o.less_trans b c a,
    o.less_irrefl a,
    o.less_irrefl b,
    o.less_irrefl c,
    o.less_total a b,
    o.less_total b c,
    o.less_total a c,
  )

  pub max_idem : (a : W) → max_of a a ≡ a
  max_idem a = ground arith

  pub AtMost-max_left : (a b : W) → AtMost a (max_of a b)
  AtMost-max_left a b = ground (arith, o.less_irrefl a, o.less_trans a b a)

-- ===== src/Rates.antt =====
-- include/core/EffectConfig.h, `ShouldApplyRate`: a probability is a `float`, and chance is a
-- `std::mt19937`. Both are parameters: the floats by the comparisons that the code makes, the
-- generator by the two distributions that it is asked for.
use scrambler.Prelude.{ℕ, ◌≤◌, ◌≡◌, ◌⊎◌, Bool, true, false, if◌then◌else◌, arith}

pub record Float (F : Type 0) : Type 0 where
  pub nought : F
  pub one : F
  pub lt : F → F → Bool
  pub le : F → F → Bool

-- A number compares with itself; NaN does not.
abbrev pub IsNumber : {F : Type 0} ⦃f : Float F⦄ → F → Type 0
IsNumber ⦃f⦄ x = f.le x x ≡ true

-- The IEEE order: total on numbers, and false wherever NaN stands.
pub record IsOrdered (F : Type 0) ⦃f : Float F⦄ : Type 0 where
  pub le-nought-one : f.le f.nought f.one ≡ true
  pub le_numbers : (x y : F) → f.le x y ≡ true → IsNumber x × IsNumber y
  pub lt_le : (x y : F) → f.lt x y ≡ true → f.le x y ≡ true
  pub le_of_not_lt : (x y : F) → IsNumber x → IsNumber y → f.lt x y ≡ false → f.le y x ≡ true
  pub le_trans : (x y z : F) → f.le x y ≡ true → f.le y z ≡ true → f.le x z ≡ true
  pub lt_le_trans : (x y z : F) → f.lt x y ≡ true → f.le y z ≡ true → f.lt x z ≡ true

-- `uniform_real` draws a float from [0, 1), `uniform_int n` an integer from 0 to n.
pub record Random (F G : Type 0) : Type 0 where
  pub uniform_real : G → F × G
  pub uniform_int : ℕ → G → ℕ × G

pub record IsUniform (F G : Type 0) ⦃r : Random F G⦄ : Type 0 where
  pub uniform_int-le : (n : ℕ) (g : G) → (r.uniform_int n g).0 ≤ n

module _ {F : Type 0} ⦃f : Float F⦄ where
  -- `std::clamp(v, 0.0F, 1.0F)`: NaN passes through.
  unfoldable pub clamp_rate : F → F
  clamp_rate v = if f.lt v f.nought then f.nought else if f.lt f.one v then f.one else v

  -- A rate that a setter stored: from 0 to 1, or NaN.
  abbrev pub IsRate : F → Type 0
  IsRate x = ((f.le f.nought x ≡ true) × (f.le x f.one ≡ true)) ⊎ (f.le x x ≡ false)

  pub clamp_rate-IsRate : IsOrdered F → (v : F) → IsRate (clamp_rate v)
  unfolding clamp_rate
  clamp_rate-IsRate o v = ground (
    arith,
    o.le-nought-one,
    o.le_numbers f.nought f.one,
    o.le_of_not_lt v f.nought,
    o.le_of_not_lt f.one v,
  )

module _ {F G : Type 0} ⦃f : Float F⦄ ⦃r : Random F G⦄ where
  -- The result, and the generator after the draw, if one is made.
  unfoldable pub should_apply_rate : F → G → Bool × G
  should_apply_rate rate rng =
      if f.le rate f.nought
      then (false, rng)
      else if f.le f.one rate
      then (true, rng)
      else (f.lt (r.uniform_real rng).0 rate, (r.uniform_real rng).1)

  unfoldable pub should_drop : F → G → Bool × G
  unfolding should_apply_rate
  should_drop rate rng = should_apply_rate rate rng

  -- From the same generator, whatever applies at one rate applies at every higher rate.
  should_apply_rate_mono :
      IsOrdered F
      → (low high : F) (rng : G) → f.le low high ≡ true
      → (should_apply_rate low rng).0 ≡ true
      → (should_apply_rate high rng).0 ≡ true
  unfolding should_apply_rate
  should_apply_rate_mono o low high rng h a = ground (
    arith,
    o.le_trans f.one low high,
    o.le_trans low high f.nought,
    o.lt_le_trans (r.uniform_real rng).0 low high,
  )

  -- A rate that is NaN never applies.
  pub should_apply_rate_nan :
      IsOrdered F
      → (rate : F) (rng : G) → f.le rate rate ≡ false
      → (should_apply_rate rate rng).0 ≡ false
  unfolding should_apply_rate
  should_apply_rate_nan o rate rng nan = ground (
    arith,
    o.le_numbers rate f.nought,
    o.le_numbers f.one rate,
    o.lt_le (r.uniform_real rng).0 rate,
    o.le_numbers (r.uniform_real rng).0 rate,
  )

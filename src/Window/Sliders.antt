-- ===== src/Window/Sliders.antt =====
-- The controls of an effect in `MainWindow`: a slider for both directions, one for each, and the box
-- that chooses between them, with the slots that set the effect. Delay, jitter, throttle
-- and drop are wired alike. The spin box beside a slider has its range and
-- repeats its value. A slider tells a change of its value, and nothing when the value stays.
use scrambler.Prelude.{
  ℕ, ◌+◌, ◌-◌, ℤ, pos, negsuc, clamp, Bool, true, false, not, leb, ◌==◌, if◌then◌else◌,
}
use scrambler.Rates.{Float}
use scrambler.Config.Effects
use scrambler.Config.Effects.{EffectConfig}

-- A setting of `EffectConfig` for each direction, and what the slot of a slider sets it to.
pub record Effect (E V : Type 0) : Type 0 where
  pub apply : Bool → ℕ → E → E
  pub read : Bool → E → V

-- The values of the sliders; `direction true` is the outbound one.
pub record Controls (E : Type 0) : Type 0 where
  pub shared : ℕ
  pub direction : Bool → ℕ
  pub asymmetric : Bool
  pub shared_enabled : Bool
  pub directions_visible : Bool
  pub effects : E

abbrev pub same_direction : Bool → Bool → Bool
same_direction true true = true
same_direction false false = true
same_direction _ _ = false

-- The difference of two values of an `int`.
abbrev pub minus : ℕ → ℕ → ℤ
minus m n = if leb n m then pos (m - n) else negsuc (n - m - 1)

-- What a hotkey sets a slider to.
unfoldable pub step_value : (up : Bool) → ℕ → ℕ → ℤ
step_value up step value = if up then pos (value + step) else minus value step

module _ {E V : Type 0} (effect : Effect E V) (low high : ℕ) where
  -- The slot of a direction's slider.
  abbrev pub direction_changed : Bool → ℕ → Controls E → Controls E
  direction_changed dir value c = record c {
    direction = λ d. if same_direction d dir then value else c.direction d;
    effects = effect.apply dir value c.effects;
  }

  -- `setValue` on the slider of a direction.
  unfoldable pub set_direction : Bool → ℤ → Controls E → Controls E
  set_direction dir v c =
      let value = clamp v low high in
      if value == c.direction dir then c else direction_changed dir value c

  unfoldable pub sync_slider_value : Bool → ℕ → Controls E → Controls E
  unfolding set_direction
  sync_slider_value dir value c =
      if c.direction dir == value then c else set_direction dir (pos value) c

  -- The slot of the shared slider.
  unfoldable pub shared_changed : ℕ → Controls E → Controls E
  unfolding sync_slider_value
  shared_changed value c = sync_slider_value false value (
      sync_slider_value true value (record c {
        shared = value;
        effects = effect.apply false value (effect.apply true value c.effects);
      }))

  unfoldable pub set_shared : ℤ → Controls E → Controls E
  unfolding shared_changed
  set_shared v c =
      let value = clamp v low high in if value == c.shared then c else shared_changed value c

  -- The slot of the box, which is toggled to `checked`.
  unfoldable pub asymmetric_toggled : (checked : Bool) → Controls E → Controls E
  unfolding set_direction set_shared
  asymmetric_toggled checked c =
      let moved =
        if checked
        then set_direction false (pos c.shared) (set_direction true (pos c.shared) c)
        else set_shared (pos (c.direction true)) c in
      record moved { shared_enabled = not checked; directions_visible = checked }

  unfoldable pub click_asymmetric : Controls E → Controls E
  unfolding asymmetric_toggled
  click_asymmetric c =
      asymmetric_toggled (not c.asymmetric) (record c { asymmetric = not c.asymmetric })

  -- `OnHotkeyTriggered`, for the actions that raise and lower a value by a step.
  unfoldable pub adjust : (up : Bool) → (step : ℕ) → Controls E → Controls E
  unfolding set_direction set_shared step_value
  adjust up step c =
      if c.asymmetric
      then (let first = set_direction true (step_value up step (c.direction true)) c in
          set_direction false (step_value up step (first.direction false)) first)
      else set_shared (step_value up step c.shared) c

module _ {F : Type 0} where
  abbrev pub delay_effect : Effect (EffectConfig F) ℕ
  delay_effect = record {
    apply = λ dir v. Effects.set_delay_ms dir (pos v);
    read = λ dir c. Effects.delay c dir;
  }

  abbrev pub jitter_effect : Effect (EffectConfig F) ℕ
  jitter_effect = record {
    apply = λ dir v. Effects.set_delay_jitter_ms dir (pos v);
    read = λ dir c. Effects.delay_jitter c dir;
  }

  abbrev pub throttle_effect : Effect (EffectConfig F) ℕ
  throttle_effect = record {
    apply = λ dir v. Effects.set_throttle_kbytes_per_sec dir (pos v);
    read = λ dir c. Effects.throttle_kbytes_per_sec c dir;
  }

module _ {F : Type 0} ⦃f : Float F⦄ (percent : ℕ → F) where
  -- `percent n` is n / 100 as a float.
  abbrev pub drop_effect : Effect (EffectConfig F) F
  drop_effect = record {
    apply = λ dir v. Effects.set_drop_rate dir (percent v);
    read = λ dir c. Effects.drop_rate c dir;
  }

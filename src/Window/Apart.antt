-- ===== src/Window/Apart.antt =====
-- The settings of drops and bursts do not touch one another.
use scrambler.Prelude.{ℕ, ◌≡◌, refl, Bool, true, false, pos}
use scrambler.Rates.{Float}
use scrambler.Config.Direction
use scrambler.Config.Direction.{DirectionEffectConfig}
use scrambler.Config.Effects
use scrambler.Config.Effects.{EffectConfig}
use scrambler.Window.Sliders.{drop_effect}
use scrambler.Window.Bursts.{burst_chance_effect, burst_length_effect}
use scrambler.Window.Framed.{Keeps, field_kept}

module _ {F : Type 0} where
  abbrev pub read_enabled : Bool → EffectConfig F → Bool
  read_enabled dir e = Effects.burst_drop_enabled e dir

  abbrev pub read_length : Bool → EffectConfig F → ℕ
  read_length dir e = Effects.burst_drop_length e dir

  abbrev pub read_chance : Bool → EffectConfig F → F
  read_chance dir e = Effects.burst_drop_rate e dir

  abbrev pub read_drop : Bool → EffectConfig F → F
  read_drop dir e = Effects.drop_rate e dir

  pub length-keeps-drop : Keeps (burst_length_effect {F = F}) read_drop
  unfolding Effects.set_burst_drop_length Effects.drop_rate Direction.set_burst_drop_length
  length-keeps-drop dir v d e =
      field_kept (λ c. c.drop_rate) (Direction.set_burst_drop_length (pos v)) (λ c. refl) dir d e

  pub length-keeps-chance : Keeps (burst_length_effect {F = F}) read_chance
  unfolding Effects.set_burst_drop_length Effects.burst_drop_rate Direction.set_burst_drop_length
  length-keeps-chance dir v d e =
      field_kept (λ c. c.burst_drop_rate) (Direction.set_burst_drop_length (pos v)) (λ c. refl) dir
        d e

  pub length-keeps-enabled : Keeps (burst_length_effect {F = F}) read_enabled
  unfolding Effects.set_burst_drop_length Effects.burst_drop_enabled Direction.set_burst_drop_length
  length-keeps-enabled dir v d e =
      field_kept (λ c. c.burst_drop_enabled) (Direction.set_burst_drop_length (pos v)) (λ c. refl)
        dir d e

  -- What the box for bursts does to the settings.
  abbrev pub both_enabled : Bool → EffectConfig F → EffectConfig F
  both_enabled checked e =
      Effects.set_burst_drop_enabled false checked (Effects.set_burst_drop_enabled true checked e)

  pub both_enabled-read :
      (checked d : Bool) (e : EffectConfig F) → read_enabled d (both_enabled checked e) ≡ checked
  unfolding Effects.set_burst_drop_enabled Effects.burst_drop_enabled
      Direction.set_burst_drop_enabled
  both_enabled-read checked true e = refl
  both_enabled-read checked false e = refl

  pub both_enabled-drop :
      (checked d : Bool) (e : EffectConfig F) → read_drop d (both_enabled checked e) ≡ read_drop d e
  unfolding Effects.set_burst_drop_enabled Effects.drop_rate Direction.set_burst_drop_enabled
  both_enabled-drop checked true e = refl
  both_enabled-drop checked false e = refl

  pub both_enabled-chance :
      (checked d : Bool) (e : EffectConfig F)
      → read_chance d (both_enabled checked e) ≡ read_chance d e
  unfolding Effects.set_burst_drop_enabled Effects.burst_drop_rate Direction.set_burst_drop_enabled
  both_enabled-chance checked true e = refl
  both_enabled-chance checked false e = refl

  pub both_enabled-length :
      (checked d : Bool) (e : EffectConfig F)
      → read_length d (both_enabled checked e) ≡ read_length d e
  unfolding Effects.set_burst_drop_enabled Effects.burst_drop_length
      Direction.set_burst_drop_enabled
  both_enabled-length checked true e = refl
  both_enabled-length checked false e = refl

module _ {F : Type 0} ⦃f : Float F⦄ (percent : ℕ → F) where
  pub drop-keeps-chance : Keeps (drop_effect percent) read_chance
  unfolding Effects.set_drop_rate Effects.burst_drop_rate Direction.set_drop_rate
  drop-keeps-chance dir v d e =
      field_kept (λ c. c.burst_drop_rate) (Direction.set_drop_rate (percent v)) (λ c. refl) dir d e

  pub drop-keeps-length : Keeps (drop_effect percent) read_length
  unfolding Effects.set_drop_rate Effects.burst_drop_length Direction.set_drop_rate
  drop-keeps-length dir v d e =
      field_kept (λ c. c.burst_drop_length) (Direction.set_drop_rate (percent v)) (λ c. refl) dir d
        e

  pub drop-keeps-enabled : Keeps (drop_effect percent) read_enabled
  unfolding Effects.set_drop_rate Effects.burst_drop_enabled Direction.set_drop_rate
  drop-keeps-enabled dir v d e =
      field_kept (λ c. c.burst_drop_enabled) (Direction.set_drop_rate (percent v)) (λ c. refl) dir d
        e

  pub chance-keeps-drop : Keeps (burst_chance_effect percent) read_drop
  unfolding Effects.set_burst_drop_rate Effects.drop_rate Direction.set_burst_drop_rate
  chance-keeps-drop dir v d e =
      field_kept (λ c. c.drop_rate) (Direction.set_burst_drop_rate (percent v)) (λ c. refl) dir d e

  pub chance-keeps-length : Keeps (burst_chance_effect percent) read_length
  unfolding Effects.set_burst_drop_rate Effects.burst_drop_length Direction.set_burst_drop_rate
  chance-keeps-length dir v d e =
      field_kept (λ c. c.burst_drop_length) (Direction.set_burst_drop_rate (percent v)) (λ c. refl)
        dir d e

  pub chance-keeps-enabled : Keeps (burst_chance_effect percent) read_enabled
  unfolding Effects.set_burst_drop_rate Effects.burst_drop_enabled Direction.set_burst_drop_rate
  chance-keeps-enabled dir v d e =
      field_kept (λ c. c.burst_drop_enabled) (Direction.set_burst_drop_rate (percent v)) (λ c. refl)
        dir d e

-- ===== src/Window/Bursts.antt =====
-- The controls of the drop rate in `MainWindow` with the burst loss beside them: the box that turns
-- bursts on, the sliders of their chance and length, and which controls can be used. A box that is
-- disabled is not clicked.
use scrambler.Prelude.{ℕ, ℤ, pos, Bool, true, false, not, ◌&&◌, if◌then◌else◌}
use scrambler.Rates.{Float}
use scrambler.Config.Direction.{max_burst_drop_length, default_burst_drop_length}
use scrambler.Config.Effects
use scrambler.Config.Effects.{EffectConfig}
use scrambler.Window.Sliders.{Effect, Controls, set_direction, set_shared, drop_effect}
use scrambler.Window.Unchecked.{Action, clicks_asymmetric, act}

-- A slider for both directions and one for each.
pub record Sliders : Type 0 where
  pub shared : ℕ
  pub direction : Bool → ℕ

module _ {E : Type 0} where
  -- The sliders with the settings, and back.
  abbrev pub controls_of : Sliders → E → Controls E
  controls_of s e = record {
    shared = s.shared;
    direction = s.direction;
    asymmetric = false;
    shared_enabled = true;
    directions_visible = false;
    effects = e;
  }

  abbrev pub sliders_of : Controls E → Sliders
  sliders_of c = record { shared = c.shared; direction = c.direction }

-- `drop` has the settings.
pub record BurstControls (E : Type 0) : Type 0 where
  pub drop : Controls E
  pub chance : Sliders
  pub length : Sliders
  pub burst_drop : Bool
  pub asymmetric : Bool
  pub drop_box_enabled : Bool
  pub controls_visible : Bool
  pub shared_enabled : Bool
  pub directions_visible : Bool

module _ {E : Type 0} where
  -- A step on the sliders of the chance, and of the length.
  abbrev pub on_chance : (Controls E → Controls E) → BurstControls E → BurstControls E
  on_chance f b =
      let c = f (controls_of b.chance b.drop.effects) in
      record b { chance = sliders_of c; drop = record b.drop { effects = c.effects } }

  abbrev pub on_length : (Controls E → Controls E) → BurstControls E → BurstControls E
  on_length f b =
      let c = f (controls_of b.length b.drop.effects) in
      record b { length = sliders_of c; drop = record b.drop { effects = c.effects } }

  unfoldable pub update_burst_drop_controls_visibility : BurstControls E → BurstControls E
  update_burst_drop_controls_visibility b = record b {
    controls_visible = b.burst_drop;
    drop_box_enabled = not b.burst_drop;
    drop = record b.drop {
      shared_enabled = not b.burst_drop && not b.drop.asymmetric;
      directions_visible = not b.burst_drop && b.drop.asymmetric;
    };
    shared_enabled = b.burst_drop && not b.asymmetric;
    directions_visible = b.burst_drop && b.asymmetric;
  }

-- What the user does to the controls, or a hotkey.
pub data BurstAction : Type 0 where
  on_drop : Action → BurstAction
  clicks_burst_drop clicks_burst_asymmetric : BurstAction
  moves_chance moves_length : ℤ → BurstAction
  moves_chance_of moves_length_of : Bool → ℤ → BurstAction

module _ {F : Type 0} ⦃f : Float F⦄ (percent : ℕ → F) where
  abbrev pub burst_chance_effect : Effect (EffectConfig F) F
  burst_chance_effect = record {
    apply = λ dir v. Effects.set_burst_drop_rate dir (percent v);
    read = λ dir c. Effects.burst_drop_rate c dir;
  }

module _ {F : Type 0} where
  abbrev pub burst_length_effect : Effect (EffectConfig F) ℕ
  burst_length_effect = record {
    apply = λ dir v. Effects.set_burst_drop_length dir (pos v);
    read = λ dir c. Effects.burst_drop_length c dir;
  }

  -- The slot of the box for bursts, which is toggled to `checked`.
  unfoldable pub burst_drop_toggled :
      (checked : Bool) → BurstControls (EffectConfig F) → BurstControls (EffectConfig F)
  unfolding update_burst_drop_controls_visibility
  burst_drop_toggled checked b = update_burst_drop_controls_visibility (record b {
    drop = record b.drop {
      effects =
          Effects.set_burst_drop_enabled false checked
            (Effects.set_burst_drop_enabled true checked b.drop.effects);
    };
  })

  -- The controls when the window is new.
  abbrev pub made_burst_controls : EffectConfig F → BurstControls (EffectConfig F)
  made_burst_controls effects = record {
    drop = record {
      shared = 0;
      direction = λ dir. 0;
      asymmetric = false;
      shared_enabled = true;
      directions_visible = false;
      effects = effects;
    };
    chance = record { shared = 0; direction = λ dir. 0 };
    length = record {
      shared = default_burst_drop_length;
      direction = λ dir. default_burst_drop_length;
    };
    burst_drop = false;
    asymmetric = false;
    drop_box_enabled = true;
    controls_visible = false;
    shared_enabled = true;
    directions_visible = false;
  }

  unfoldable pub new_burst_controls : EffectConfig F → BurstControls (EffectConfig F)
  unfolding update_burst_drop_controls_visibility
  new_burst_controls effects = update_burst_drop_controls_visibility (made_burst_controls effects)

module _ {F : Type 0} ⦃f : Float F⦄ (percent : ℕ → F) where
  unfoldable pub set_chance_of :
      Bool → ℤ → BurstControls (EffectConfig F) → BurstControls (EffectConfig F)
  set_chance_of dir v = on_chance (set_direction (burst_chance_effect percent) 0 100 dir v)

  unfoldable pub set_chance : ℤ → BurstControls (EffectConfig F) → BurstControls (EffectConfig F)
  set_chance v = on_chance (set_shared (burst_chance_effect percent) 0 100 v)

  unfoldable pub set_length_of :
      Bool → ℤ → BurstControls (EffectConfig F) → BurstControls (EffectConfig F)
  set_length_of dir v = on_length (set_direction burst_length_effect 1 max_burst_drop_length dir v)

  unfoldable pub set_length : ℤ → BurstControls (EffectConfig F) → BurstControls (EffectConfig F)
  set_length v = on_length (set_shared burst_length_effect 1 max_burst_drop_length v)

  -- The slot of the box for separate directions of a burst.
  unfoldable pub burst_asymmetric_toggled :
      (checked : Bool) → BurstControls (EffectConfig F) → BurstControls (EffectConfig F)
  unfolding update_burst_drop_controls_visibility set_chance_of set_length_of set_chance set_length
  burst_asymmetric_toggled checked b = update_burst_drop_controls_visibility (
      if checked
      then (let chances =
            set_chance_of false (pos b.chance.shared)
              (set_chance_of true (pos b.chance.shared) b) in
          set_length_of false (pos b.length.shared)
            (set_length_of true (pos b.length.shared) chances))
      else set_length (pos (b.length.direction true))
          (set_chance (pos (b.chance.direction true)) b))

  unfoldable pub burst_act :
      BurstControls (EffectConfig F) → BurstAction → BurstControls (EffectConfig F)
  unfolding burst_drop_toggled burst_asymmetric_toggled act
  burst_act b (on_drop clicks_asymmetric) =
      if b.drop_box_enabled
      then record b { drop = act (drop_effect percent) 0 100 b.drop clicks_asymmetric }
      else b
  burst_act b (on_drop a) = record b { drop = act (drop_effect percent) 0 100 b.drop a }
  burst_act b clicks_burst_drop =
      burst_drop_toggled (not b.burst_drop) (record b { burst_drop = not b.burst_drop })
  burst_act b clicks_burst_asymmetric =
      burst_asymmetric_toggled (not b.asymmetric) (record b { asymmetric = not b.asymmetric })
  burst_act b (moves_chance v) = set_chance v b
  burst_act b (moves_length v) = set_length v b
  burst_act b (moves_chance_of dir v) = set_chance_of dir v b
  burst_act b (moves_length_of dir v) = set_length_of dir v b

-- ===== src/Window/BurstShown.antt =====
-- What the controls of drops and bursts show and which of them can be used, and what a move of a
-- slider leaves true.
use scrambler.Prelude.{ℕ, ◌≡◌, refl, ◌∙◌, ℤ, Bool, not, ◌&&◌, arith}
use scrambler.Rates.{Float, clamp_rate}
use scrambler.Config.Direction.{max_burst_drop_length}
use scrambler.Config.Effects.{EffectConfig}
use scrambler.Window.Sliders.{Controls, set_direction, set_shared, drop_effect}
use scrambler.Window.Shown.{IsShown, set_direction-IsShown, set_shared-IsShown}
use scrambler.Window.Unchecked.{flagged-IsShown}
use scrambler.Window.Wired.{drop-IsEffect, burst_chance-IsEffect, burst_length-IsEffect}
use scrambler.Window.Bursts.{
  controls_of, BurstControls, on_chance, on_length, update_burst_drop_controls_visibility,
  burst_chance_effect, burst_length_effect, set_chance, set_chance_of, set_length, set_length_of,
}
use scrambler.Window.Framed.{set_direction-keeps, set_shared-keeps}
use scrambler.Window.Apart.{
  read_enabled, read_length, read_chance, read_drop, length-keeps-drop, length-keeps-chance,
  length-keeps-enabled, chance-keeps-drop, chance-keeps-length, chance-keeps-enabled,
}

module _ {F : Type 0} ⦃f : Float F⦄ (percent : ℕ → F) where
  abbrev pub shown_rate : ℕ → F
  shown_rate v = clamp_rate (percent v)

  -- The settings are what the sliders and the box show.
  pub record IsBurstSet (b : BurstControls (EffectConfig F)) : Type 0 where
    pub drop : IsShown (drop_effect percent) 0 100 shown_rate b.drop
    pub chance :
        IsShown (burst_chance_effect percent) 0 100 shown_rate (controls_of b.chance b.drop.effects)
    pub length :
        IsShown burst_length_effect 1 max_burst_drop_length
          (λ v. v)
          (controls_of b.length b.drop.effects)
    pub enabled : (dir : Bool) → read_enabled dir b.drop.effects ≡ b.burst_drop

  -- With bursts on, the controls of single drops cannot be used, and those of bursts can; of
  -- each, the shared slider or those of the directions.
  pub record IsUsable (b : BurstControls (EffectConfig F)) : Type 0 where
    pub drop_box : b.drop_box_enabled ≡ not b.burst_drop
    pub drop_shared : b.drop.shared_enabled ≡ (not b.burst_drop && not b.drop.asymmetric)
    pub drop_directions : b.drop.directions_visible ≡ (not b.burst_drop && b.drop.asymmetric)
    pub burst_part : b.controls_visible ≡ b.burst_drop
    pub burst_shared : b.shared_enabled ≡ (b.burst_drop && not b.asymmetric)
    pub burst_directions : b.directions_visible ≡ (b.burst_drop && b.asymmetric)

  pub update-IsUsable :
      (b : BurstControls (EffectConfig F)) → IsUsable (update_burst_drop_controls_visibility b)
  unfolding update_burst_drop_controls_visibility
  update-IsUsable b = record {
    drop_box = refl;
    drop_shared = refl;
    drop_directions = refl;
    burst_part = refl;
    burst_shared = refl;
    burst_directions = refl;
  }

  pub update-IsBurstSet :
      (b : BurstControls (EffectConfig F))
      → IsBurstSet b
      → IsBurstSet (update_burst_drop_controls_visibility b)
  unfolding update_burst_drop_controls_visibility
  update-IsBurstSet b s = record {
    drop =
        flagged-IsShown (drop_effect percent) 0 100 shown_rate (drop-IsEffect percent 100)
          (omega arith) b.drop.asymmetric _ _ b.drop s.drop;
    chance = s.chance;
    length = s.length;
    enabled = s.enabled;
  }

  -- A step on the sliders of the chance leaves the other settings alone.
  chance-IsBurstSet :
      (g : Controls (EffectConfig F) → Controls (EffectConfig F))
      (b : BurstControls (EffectConfig F))
      → IsBurstSet b
      → (let c = g (controls_of b.chance b.drop.effects) in
          IsShown (burst_chance_effect percent) 0 100 shown_rate c
          × ((d : Bool) → read_drop d c.effects ≡ read_drop d b.drop.effects)
          × ((d : Bool) → read_length d c.effects ≡ read_length d b.drop.effects)
          × ((d : Bool) → read_enabled d c.effects ≡ read_enabled d b.drop.effects))
      → IsBurstSet (on_chance g b)
  chance-IsBurstSet g b s (shown, drop, length, enabled) = record {
    drop = record {
      in_range = s.drop.in_range;
      shared_in_range = s.drop.shared_in_range;
      reads = λ d. drop d ∙ s.drop.reads d;
    };
    chance = record {
      in_range = shown.in_range;
      shared_in_range = shown.shared_in_range;
      reads = shown.reads;
    };
    length = record {
      in_range = s.length.in_range;
      shared_in_range = s.length.shared_in_range;
      reads = λ d. length d ∙ s.length.reads d;
    };
    enabled = λ d. enabled d ∙ s.enabled d;
  }

  length-IsBurstSet :
      (g : Controls (EffectConfig F) → Controls (EffectConfig F))
      (b : BurstControls (EffectConfig F))
      → IsBurstSet b
      → (let c = g (controls_of b.length b.drop.effects) in
          IsShown burst_length_effect 1 max_burst_drop_length (λ v. v) c
          × ((d : Bool) → read_drop d c.effects ≡ read_drop d b.drop.effects)
          × ((d : Bool) → read_chance d c.effects ≡ read_chance d b.drop.effects)
          × ((d : Bool) → read_enabled d c.effects ≡ read_enabled d b.drop.effects))
      → IsBurstSet (on_length g b)
  length-IsBurstSet g b s (shown, drop, chance, enabled) = record {
    drop = record {
      in_range = s.drop.in_range;
      shared_in_range = s.drop.shared_in_range;
      reads = λ d. drop d ∙ s.drop.reads d;
    };
    chance = record {
      in_range = s.chance.in_range;
      shared_in_range = s.chance.shared_in_range;
      reads = λ d. chance d ∙ s.chance.reads d;
    };
    length = record {
      in_range = shown.in_range;
      shared_in_range = shown.shared_in_range;
      reads = shown.reads;
    };
    enabled = λ d. enabled d ∙ s.enabled d;
  }

  pub set_chance_of-IsBurstSet :
      (dir : Bool) (v : ℤ) (b : BurstControls (EffectConfig F))
      → IsBurstSet b
      → IsBurstSet (set_chance_of percent dir v b)
  unfolding set_chance_of
  set_chance_of-IsBurstSet dir v b s =
      let effect = burst_chance_effect percent in
      let c = controls_of b.chance b.drop.effects in
      chance-IsBurstSet (set_direction effect 0 100 dir v) b s (
        set_direction-IsShown effect 0 100 shown_rate (burst_chance-IsEffect percent 100)
            (omega arith) dir v c s.chance,
        λ d. set_direction-keeps effect read_drop 0 100 (chance-keeps-drop percent) d dir v c,
        λ d. set_direction-keeps effect read_length 0 100 (chance-keeps-length percent) d dir v c,
        λ d. set_direction-keeps effect read_enabled 0 100 (chance-keeps-enabled percent) d dir v c,
      )

  pub set_chance-IsBurstSet :
      (v : ℤ) (b : BurstControls (EffectConfig F))
      → IsBurstSet b
      → IsBurstSet (set_chance percent v b)
  unfolding set_chance
  set_chance-IsBurstSet v b s =
      let effect = burst_chance_effect percent in
      let c = controls_of b.chance b.drop.effects in
      chance-IsBurstSet (set_shared effect 0 100 v) b s (
        set_shared-IsShown effect 0 100 shown_rate (burst_chance-IsEffect percent 100) (omega arith)
            v c s.chance,
        λ d. set_shared-keeps effect read_drop 0 100 (chance-keeps-drop percent) d v c,
        λ d. set_shared-keeps effect read_length 0 100 (chance-keeps-length percent) d v c,
        λ d. set_shared-keeps effect read_enabled 0 100 (chance-keeps-enabled percent) d v c,
      )

  pub set_length_of-IsBurstSet :
      (dir : Bool) (v : ℤ) (b : BurstControls (EffectConfig F))
      → IsBurstSet b
      → IsBurstSet (set_length_of percent dir v b)
  unfolding set_length_of
  set_length_of-IsBurstSet dir v b s =
      let high = max_burst_drop_length in
      let c = controls_of b.length b.drop.effects in
      length-IsBurstSet (set_direction burst_length_effect 1 high dir v) b s (
        set_direction-IsShown burst_length_effect 1 high (λ n. n) burst_length-IsEffect
            (omega arith) dir v c s.length,
        λ d. set_direction-keeps burst_length_effect read_drop 1 high length-keeps-drop d dir v c,
        λ d.
            set_direction-keeps burst_length_effect read_chance 1 high length-keeps-chance d dir v
              c,
        λ d.
            set_direction-keeps burst_length_effect read_enabled 1 high length-keeps-enabled d dir v
              c,
      )

  pub set_length-IsBurstSet :
      (v : ℤ) (b : BurstControls (EffectConfig F))
      → IsBurstSet b
      → IsBurstSet (set_length percent v b)
  unfolding set_length
  set_length-IsBurstSet v b s =
      let high = max_burst_drop_length in
      let c = controls_of b.length b.drop.effects in
      length-IsBurstSet (set_shared burst_length_effect 1 high v) b s (
        set_shared-IsShown burst_length_effect 1 high (λ n. n) burst_length-IsEffect (omega arith) v
            c s.length,
        λ d. set_shared-keeps burst_length_effect read_drop 1 high length-keeps-drop d v c,
        λ d. set_shared-keeps burst_length_effect read_chance 1 high length-keeps-chance d v c,
        λ d. set_shared-keeps burst_length_effect read_enabled 1 high length-keeps-enabled d v c,
      )

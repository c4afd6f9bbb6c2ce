-- ===== src/Window/Duplicates.antt =====
-- The controls of duplicates in `MainWindow`: their chance, and the number of extra copies, which
-- counts only with the box for custom copies. A control that is disabled or hidden is not moved.
use scrambler.Prelude.{ℕ, ℤ, pos, clamp, Bool, true, false, not, ◌&&◌, if◌then◌else◌}
use scrambler.Rates.{Float}
use scrambler.Config.Direction.{max_duplicate_copies, default_duplicate_copies}
use scrambler.Config.Effects
use scrambler.Config.Effects.{EffectConfig}
use scrambler.Window.Sliders.{Effect, Controls, set_direction, set_shared, click_asymmetric}
use scrambler.Window.Bursts.{Sliders, controls_of, sliders_of}

-- `chance` has the settings and the box for separate directions.
pub record DuplicateControls (E : Type 0) : Type 0 where
  pub chance : Controls E
  pub count : Sliders
  pub custom : Bool
  pub count_visible : Bool
  pub count_directions_visible : Bool
  pub count_enabled : Bool

module _ {F : Type 0} ⦃f : Float F⦄ (percent : ℕ → F) where
  abbrev pub duplicate_effect : Effect (EffectConfig F) F
  duplicate_effect = record {
    apply = λ dir v. Effects.set_duplicate_rate dir (percent v);
    read = λ dir c. Effects.duplicate_rate c dir;
  }

module _ {E : Type 0} where
  unfoldable pub update_duplicate_copy_controls_visibility :
      DuplicateControls E → DuplicateControls E
  update_duplicate_copy_controls_visibility c = record c {
    count_visible = c.custom && not c.chance.asymmetric;
    count_directions_visible = c.custom && c.chance.asymmetric;
    count_enabled = c.custom && not c.chance.asymmetric;
  }

  -- A step on the sliders of the count.
  abbrev pub on_count : (Controls E → Controls E) → DuplicateControls E → DuplicateControls E
  on_count g c =
      let k = g (controls_of c.count c.chance.effects) in
      record c { count = sliders_of k; chance = record c.chance { effects = k.effects } }

-- What the user does to the controls.
pub data DuplicateAction : Type 0 where
  moves_duplicates moves_count : ℤ → DuplicateAction
  moves_duplicates_of moves_count_of : Bool → ℤ → DuplicateAction
  clicks_custom clicks_duplicate_asymmetric : DuplicateAction

module _ {F : Type 0} where
  -- The slots of the sliders do nothing without custom copies.
  abbrev pub duplicate_count_effect : (custom : Bool) → Effect (EffectConfig F) ℕ
  duplicate_count_effect custom = record {
    apply = λ dir v e. if custom then Effects.set_duplicate_count dir (pos v) e else e;
    read = λ dir c. Effects.duplicate_count c dir;
  }

  -- `setValue` on the slider of a direction.
  unfoldable pub set_count_of :
      Bool → ℤ → DuplicateControls (EffectConfig F) → DuplicateControls (EffectConfig F)
  set_count_of dir v c =
      on_count
        (set_direction (duplicate_count_effect c.custom) default_duplicate_copies
          max_duplicate_copies dir v)
        c

  -- `setValue` on the shared slider; without custom copies no other slider follows.
  unfoldable pub set_count :
      ℤ → DuplicateControls (EffectConfig F) → DuplicateControls (EffectConfig F)
  set_count v c =
      if c.custom
      then on_count
          (set_shared (duplicate_count_effect true) default_duplicate_copies max_duplicate_copies v)
          c
      else record c {
        count = record c.count { shared = clamp v default_duplicate_copies max_duplicate_copies };
      }

  abbrev pub both_counts : (out inbound : ℕ) → EffectConfig F → EffectConfig F
  both_counts out inbound e =
      Effects.set_duplicate_count false (pos inbound) (Effects.set_duplicate_count true (pos out) e)

  -- The counts that the box for custom copies sets.
  abbrev pub custom_counts : (checked asymmetric : Bool) → Sliders → EffectConfig F → EffectConfig F
  custom_counts checked asymmetric count e =
      if checked
      then (if asymmetric
          then both_counts (count.direction true) (count.direction false) e
          else both_counts count.shared count.shared e)
      else both_counts default_duplicate_copies default_duplicate_copies e

  -- The slot of the box for custom copies, which is toggled to `checked`.
  unfoldable pub duplicate_custom_count_toggled :
      (checked : Bool) → DuplicateControls (EffectConfig F) → DuplicateControls (EffectConfig F)
  unfolding update_duplicate_copy_controls_visibility
  duplicate_custom_count_toggled checked c = update_duplicate_copy_controls_visibility (record c {
    chance = record c.chance {
      effects = custom_counts checked c.chance.asymmetric c.count c.chance.effects;
    };
  })

  -- What the slot of the box for separate directions does to the sliders of the count.
  unfoldable pub counts_follow :
      (checked : Bool) → DuplicateControls (EffectConfig F) → DuplicateControls (EffectConfig F)
  unfolding set_count_of set_count
  counts_follow checked c =
      if c.custom
      then (if checked
          then set_count_of false (pos c.count.shared) (set_count_of true (pos c.count.shared) c)
          else set_count (pos (c.count.direction true)) c)
      else c

  -- The controls when the window is new.
  abbrev pub new_duplicate_controls : EffectConfig F → DuplicateControls (EffectConfig F)
  new_duplicate_controls effects = record {
    chance = record {
      shared = 0;
      direction = λ dir. 0;
      asymmetric = false;
      shared_enabled = true;
      directions_visible = false;
      effects = effects;
    };
    count = record {
      shared = default_duplicate_copies;
      direction = λ dir. default_duplicate_copies;
    };
    custom = false;
    count_visible = false;
    count_directions_visible = false;
    count_enabled = false;
  }

module _ {F : Type 0} ⦃f : Float F⦄ (percent : ℕ → F) where
  -- The box for separate directions is clicked: the chance follows as with the other effects.
  unfoldable pub click_duplicate_asymmetric :
      DuplicateControls (EffectConfig F) → DuplicateControls (EffectConfig F)
  unfolding click_asymmetric counts_follow update_duplicate_copy_controls_visibility
  click_duplicate_asymmetric c =
      let chance = click_asymmetric (duplicate_effect percent) 0 100 c.chance in
      update_duplicate_copy_controls_visibility
        (counts_follow (not c.chance.asymmetric) (record c { chance = chance }))

  unfoldable pub duplicate_act :
      DuplicateControls (EffectConfig F) → DuplicateAction → DuplicateControls (EffectConfig F)
  unfolding set_count set_count_of duplicate_custom_count_toggled click_duplicate_asymmetric
  duplicate_act c (moves_duplicates v) = record c {
    chance = set_shared (duplicate_effect percent) 0 100 v c.chance;
  }
  duplicate_act c (moves_duplicates_of dir v) = record c {
    chance = set_direction (duplicate_effect percent) 0 100 dir v c.chance;
  }
  duplicate_act c (moves_count v) = if c.count_enabled then set_count v c else c
  duplicate_act c (moves_count_of dir v) =
      if c.count_directions_visible then set_count_of dir v c else c
  duplicate_act c clicks_custom =
      duplicate_custom_count_toggled (not c.custom) (record c { custom = not c.custom })
  duplicate_act c clicks_duplicate_asymmetric = click_duplicate_asymmetric c

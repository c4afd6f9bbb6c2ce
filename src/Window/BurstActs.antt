-- ===== src/Window/BurstActs.antt =====
-- What single actions on the controls of drops and bursts leave true.
use scrambler.Prelude.{ℕ, ◌≡◌, refl, sym, ◌∙◌, ap, pos, Bool, true, false, not, ◌&&◌, arith}
use scrambler.Rates.{Float}
use scrambler.Config.Effects.{EffectConfig}
use scrambler.Window.Sliders.{Controls, drop_effect, click_asymmetric, asymmetric_toggled}
use scrambler.Window.Unchecked.{Action, act, act-IsShown}
use scrambler.Window.Wired.{drop-IsEffect}
use scrambler.Window.Bursts.{Sliders, BurstControls, burst_drop_toggled, burst_asymmetric_toggled}
use scrambler.Window.Framed.{act-keeps, click-asymmetric}
use scrambler.Window.Apart.{
  read_enabled, read_length, read_chance, both_enabled, both_enabled-read, both_enabled-drop,
  both_enabled-chance, both_enabled-length, drop-keeps-chance, drop-keeps-length,
  drop-keeps-enabled,
}
use scrambler.Window.BurstShown.{
  shown_rate, IsBurstSet, IsUsable, update-IsUsable, update-IsBurstSet, set_chance_of-IsBurstSet,
  set_chance-IsBurstSet, set_length_of-IsBurstSet, set_length-IsBurstSet,
}

module _ {F : Type 0} where
  -- The boxes and what can be used, of the controls of single drops.
  abbrev pub flags : Controls (EffectConfig F) → Bool × Bool × Bool
  flags c = (c.asymmetric, c.shared_enabled, c.directions_visible)

module _ {F : Type 0} ⦃f : Float F⦄ (percent : ℕ → F) where
  -- An action on the controls of single drops leaves the bursts alone.
  pub dropped-IsBurstSet :
      (b : BurstControls (EffectConfig F)) (a : Action)
      → IsBurstSet percent b
      → IsBurstSet percent (record b { drop = act (drop_effect percent) 0 100 b.drop a })
  dropped-IsBurstSet b a s =
      let effect = drop_effect percent in
      let c = act effect 0 100 b.drop a in
      let chance = act-keeps effect read_chance 0 100 (drop-keeps-chance percent) in
      let length = act-keeps effect read_length 0 100 (drop-keeps-length percent) in
      let enabled = act-keeps effect read_enabled 0 100 (drop-keeps-enabled percent) in
      record {
        drop =
            act-IsShown effect 0 100 (shown_rate percent) (drop-IsEffect percent 100) (omega arith)
              b.drop a s.drop;
        chance = record {
          in_range = s.chance.in_range;
          shared_in_range = s.chance.shared_in_range;
          reads = λ d. chance d b.drop a ∙ s.chance.reads d;
        };
        length = record {
          in_range = s.length.in_range;
          shared_in_range = s.length.shared_in_range;
          reads = λ d. length d b.drop a ∙ s.length.reads d;
        };
        enabled = λ d. enabled d b.drop a ∙ s.enabled d;
      }

  pub same_flags-IsUsable :
      (b : BurstControls (EffectConfig F)) (c : Controls (EffectConfig F))
      → flags c ≡ flags b.drop
      → IsUsable percent b
      → IsUsable percent (record b { drop = c })
  same_flags-IsUsable b c e u =
      let box = ap (λ (x : Bool × Bool × Bool). x.0) e in
      record {
        drop_box = u.drop_box;
        drop_shared =
            ap (λ (x : Bool × Bool × Bool). x.1) e
            ∙ u.drop_shared
            ∙ ap (λ x. not b.burst_drop && not x) (sym box);
        drop_directions =
            ap (λ (x : Bool × Bool × Bool). x.2) e
            ∙ u.drop_directions
            ∙ ap (λ x. not b.burst_drop && x) (sym box);
        burst_part = u.burst_part;
        burst_shared = u.burst_shared;
        burst_directions = u.burst_directions;
      }

  -- A click on the box of single drops, which is enabled only without bursts.
  pub clicked-IsUsable :
      (b : BurstControls (EffectConfig F))
      → b.burst_drop ≡ false
      → IsUsable percent b
      → IsUsable percent (record b { drop = click_asymmetric (drop_effect percent) 0 100 b.drop })
  unfolding click_asymmetric asymmetric_toggled
  clicked-IsUsable b off u =
      let box = click-asymmetric (drop_effect percent) 0 100 b.drop in
      record {
        drop_box = u.drop_box;
        drop_shared = rw (off, box) refl;
        drop_directions = rw (off, box) refl;
        burst_part = u.burst_part;
        burst_shared = u.burst_shared;
        burst_directions = u.burst_directions;
      }

  pub toggled-IsBurstSet :
      (checked : Bool) (b : BurstControls (EffectConfig F))
      → IsBurstSet percent b
      → IsBurstSet percent (burst_drop_toggled checked (record b { burst_drop = checked }))
  unfolding burst_drop_toggled
  toggled-IsBurstSet checked b s =
      let e = b.drop.effects in
      let set : BurstControls (EffectConfig F) = record b {
        burst_drop = checked;
        drop = record b.drop { effects = both_enabled checked e };
      } in
      update-IsBurstSet percent set (record {
        drop = record {
          in_range = s.drop.in_range;
          shared_in_range = s.drop.shared_in_range;
          reads = λ d. both_enabled-drop checked d e ∙ s.drop.reads d;
        };
        chance = record {
          in_range = s.chance.in_range;
          shared_in_range = s.chance.shared_in_range;
          reads = λ d. both_enabled-chance checked d e ∙ s.chance.reads d;
        };
        length = record {
          in_range = s.length.in_range;
          shared_in_range = s.length.shared_in_range;
          reads = λ d. both_enabled-length checked d e ∙ s.length.reads d;
        };
        enabled = λ d. both_enabled-read checked d e;
      })

  pub asymmetric-IsUsable :
      (checked : Bool) (b : BurstControls (EffectConfig F))
      → IsUsable percent (burst_asymmetric_toggled percent checked b)
  unfolding burst_asymmetric_toggled
  asymmetric-IsUsable checked b = record {
    drop_box = refl;
    drop_shared = refl;
    drop_directions = refl;
    burst_part = refl;
    burst_shared = refl;
    burst_directions = refl;
  }

  pub toggled-IsUsable :
      (checked : Bool) (b : BurstControls (EffectConfig F))
      → IsUsable percent (burst_drop_toggled checked b)
  unfolding burst_drop_toggled
  toggled-IsUsable checked b =
      update-IsUsable percent
        (record b { drop = record b.drop { effects = both_enabled checked b.drop.effects } })

  pub asymmetric-IsBurstSet :
      (checked : Bool) (b : BurstControls (EffectConfig F))
      → IsBurstSet percent b
      → IsBurstSet percent (burst_asymmetric_toggled percent checked b)
  unfolding burst_asymmetric_toggled
  asymmetric-IsBurstSet true b s =
      let chances =
        set_chance_of-IsBurstSet percent false (pos b.chance.shared) _
          (set_chance_of-IsBurstSet percent true (pos b.chance.shared) b s) in
      update-IsBurstSet percent _ (
        set_length_of-IsBurstSet percent false (pos b.length.shared) _
          (set_length_of-IsBurstSet percent true (pos b.length.shared) _ chances))
  asymmetric-IsBurstSet false b s = update-IsBurstSet percent _ (
      set_length-IsBurstSet percent (pos (b.length.direction true)) _
        (set_chance-IsBurstSet percent (pos (b.chance.direction true)) b s))

  -- Moves of the sliders of bursts do not change what can be used.
  pub moved-IsUsable :
      (chance length : Sliders) (effects : EffectConfig F) (b : BurstControls (EffectConfig F))
      → IsUsable percent b
      → IsUsable percent (record b {
        chance = chance;
        length = length;
        drop = record b.drop { effects = effects };
      })
  moved-IsUsable chance length effects b u = record {
    drop_box = u.drop_box;
    drop_shared = u.drop_shared;
    drop_directions = u.drop_directions;
    burst_part = u.burst_part;
    burst_shared = u.burst_shared;
    burst_directions = u.burst_directions;
  }

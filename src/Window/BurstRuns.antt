-- ===== src/Window/BurstRuns.antt =====
-- The controls of drops and bursts over any actions.
use scrambler.Prelude.{ℕ, ◌≡◌, refl, Bool, false, not, List, [], ◌∷◌, foldl, arith}
use scrambler.Rates.{Float}
use scrambler.Config.Direction.{default_burst_drop_length}
use scrambler.Config.Effects.{EffectConfig}
use scrambler.Window.Sliders.{drop_effect}
use scrambler.Window.Shown.{by_if}
use scrambler.Window.Unchecked.{
  Action, moves_shared, moves_direction, clicks_asymmetric, steps, act,
}
use scrambler.Window.Bursts.{
  new_burst_controls, made_burst_controls, BurstControls, BurstAction, on_drop, clicks_burst_drop,
  clicks_burst_asymmetric, moves_chance, moves_length, moves_chance_of, moves_length_of,
  burst_drop_toggled, set_chance, set_chance_of, set_length, set_length_of,
  burst_asymmetric_toggled, burst_act,
}
use scrambler.Window.Framed.{set_direction-flag, set_shared-flag, adjust-flag}
use scrambler.Window.Apart.{read_enabled, read_length, read_chance, read_drop}
use scrambler.Window.BurstShown.{
  shown_rate, IsBurstSet, IsUsable, update-IsUsable, update-IsBurstSet, set_chance_of-IsBurstSet,
  set_chance-IsBurstSet, set_length_of-IsBurstSet, set_length-IsBurstSet,
}
use scrambler.Window.BurstActs.{
  flags, dropped-IsBurstSet, same_flags-IsUsable, clicked-IsUsable, toggled-IsBurstSet,
  asymmetric-IsUsable, toggled-IsUsable, asymmetric-IsBurstSet, moved-IsUsable,
}

module _ {F : Type 0} ⦃f : Float F⦄ (percent : ℕ → F) where
  -- The two parts of the invariant.
  abbrev pub IsBurstShown : BurstControls (EffectConfig F) → Type 0
  IsBurstShown b = IsBurstSet percent b × IsUsable percent b

  dropped-IsUsable :
      (b : BurstControls (EffectConfig F)) (a : Action)
      → flags (act (drop_effect percent) 0 100 b.drop a) ≡ flags b.drop
      → IsBurstShown b
      → IsBurstShown (record b { drop = act (drop_effect percent) 0 100 b.drop a })
  dropped-IsUsable b a e (s, u) =
      (dropped-IsBurstSet percent b a s, same_flags-IsUsable percent b _ e u)

  act-IsBurstShown :
      (b : BurstControls (EffectConfig F)) (a : BurstAction)
      → IsBurstShown b
      → IsBurstShown (burst_act percent b a)
  unfolding burst_act act set_chance_of set_chance set_length_of set_length burst_drop_toggled
      burst_asymmetric_toggled
  act-IsBurstShown b (on_drop (moves_shared v)) h =
      dropped-IsUsable b (moves_shared v)
        (set_shared-flag (drop_effect percent) 0 100 flags (λ c s d e. refl) v b.drop) h
  act-IsBurstShown b (on_drop (moves_direction dir v)) h =
      dropped-IsUsable b (moves_direction dir v)
        (set_direction-flag (drop_effect percent) 0 100 flags (λ c s d e. refl) dir v b.drop) h
  act-IsBurstShown b (on_drop (steps up step)) h =
      dropped-IsUsable b (steps up step)
        (adjust-flag (drop_effect percent) 0 100 flags (λ c s d e. refl) up step b.drop) h
  act-IsBurstShown b (on_drop clicks_asymmetric) (s, u) =
      by_if IsBurstShown b.drop_box_enabled
        (record b { drop = act (drop_effect percent) 0 100 b.drop clicks_asymmetric }) b
        (λ e. (
          dropped-IsBurstSet percent b clicks_asymmetric s,
          clicked-IsUsable percent b (ground (arith, u.drop_box)) u,
        ))
        (λ e. (s, u))
  act-IsBurstShown b clicks_burst_drop (s, u) = (
    toggled-IsBurstSet percent (not b.burst_drop) b s,
    toggled-IsUsable percent (not b.burst_drop) (record b { burst_drop = not b.burst_drop }),
  )
  act-IsBurstShown b clicks_burst_asymmetric (s, u) =
      let clicked : BurstControls (EffectConfig F) = record b { asymmetric = not b.asymmetric } in
      (
        asymmetric-IsBurstSet percent (not b.asymmetric) clicked
            (record { drop = s.drop; chance = s.chance; length = s.length; enabled = s.enabled }),
        asymmetric-IsUsable percent (not b.asymmetric) clicked,
      )
  act-IsBurstShown b (moves_chance v) (s, u) =
      (set_chance-IsBurstSet percent v b s, moved-IsUsable percent _ b.length _ b u)
  act-IsBurstShown b (moves_length v) (s, u) =
      (set_length-IsBurstSet percent v b s, moved-IsUsable percent b.chance _ _ b u)
  act-IsBurstShown b (moves_chance_of dir v) (s, u) =
      (set_chance_of-IsBurstSet percent dir v b s, moved-IsUsable percent _ b.length _ b u)
  act-IsBurstShown b (moves_length_of dir v) (s, u) =
      (set_length_of-IsBurstSet percent dir v b s, moved-IsUsable percent b.chance _ _ b u)

  -- From controls that show the settings, after any actions of the user or by hotkey, in any order:
  -- the drop rate, the chance and the length of bursts are, in each direction, what the slider of
  -- the direction shows, and bursts are enabled in both directions exactly if their box is checked.
  -- With bursts on, the controls of single drops cannot be used, and those of bursts are shown;
  -- with bursts off it is the other way round. The shared slider of drops, or of bursts, can
  -- be used without their box for separate directions, the sliders of the directions with it.
  pub burst_controls_shown :
      (b : BurstControls (EffectConfig F)) (acts : List BurstAction)
      → IsBurstSet percent b
      → IsUsable percent b
      → IsBurstSet percent (foldl (burst_act percent) b acts)
        × IsUsable percent (foldl (burst_act percent) b acts)
  burst_controls_shown b [] s u = (s, u)
  burst_controls_shown b (a ∷ acts) s u =
      let (s', u') = act-IsBurstShown b a (s, u) in
      burst_controls_shown (burst_act percent b a) acts s' u'

  -- So it is when the window is new, if every rate of zero percent is the default one.
  pub new_controls-IsBurstShown :
      (e : EffectConfig F)
      → ((d : Bool) → read_drop d e ≡ shown_rate percent 0)
      → ((d : Bool) → read_chance d e ≡ shown_rate percent 0)
      → ((d : Bool) → read_length d e ≡ default_burst_drop_length)
      → ((d : Bool) → read_enabled d e ≡ false)
      → IsBurstShown (new_burst_controls e)
  unfolding new_burst_controls
  new_controls-IsBurstShown e drop chance length enabled = (
    update-IsBurstSet percent (made_burst_controls e) (record {
      drop = record { in_range = λ d. omega arith; shared_in_range = omega arith; reads = drop };
      chance = record {
        in_range = λ d. omega arith;
        shared_in_range = omega arith;
        reads = chance;
      };
      length = record {
        in_range = λ d. omega arith;
        shared_in_range = omega arith;
        reads = length;
      };
      enabled = enabled;
    }),
    update-IsUsable percent (made_burst_controls e),
  )

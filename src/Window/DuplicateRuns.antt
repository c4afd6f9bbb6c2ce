-- ===== src/Window/DuplicateRuns.antt =====
-- The controls of duplicates over any actions.
use scrambler.Prelude.{
  not-true, ℕ, ◌≡◌, refl, sym, ◌∙◌, subst, ℤ, Bool, true, false, not, ◌&&◌, List, [], ◌∷◌, foldl,
  arith,
}
use scrambler.Rates.{Float}
use scrambler.Config.Effects.{EffectConfig}
use scrambler.Window.Sliders.{Controls, set_direction, set_shared, click_asymmetric}
use scrambler.Window.Shown.{IsShown, by_if, set_direction-IsShown, set_shared-IsShown}
use scrambler.Window.Unchecked.{clicked-IsShown}
use scrambler.Window.Wired.{duplicate-IsEffect}
use scrambler.Window.Bursts.{Sliders}
use scrambler.Window.BurstShown.{shown_rate}
use scrambler.Window.Framed.{
  set_direction-keeps, set_shared-keeps, click-keeps, set_direction-flag, set_shared-flag,
  click-asymmetric,
}
use scrambler.Window.Duplicates.{
  DuplicateControls, DuplicateAction, moves_duplicates, moves_count, moves_duplicates_of,
  moves_count_of, clicks_custom, clicks_duplicate_asymmetric, duplicate_effect,
  update_duplicate_copy_controls_visibility, set_count_of, set_count,
  duplicate_custom_count_toggled, counts_follow, click_duplicate_asymmetric, duplicate_act,
}
use scrambler.Window.Counted.{read_count, AreCounted}
use scrambler.Window.CountSteps.{
  moved-AreCounted, shared-AreCounted, custom-AreCounted, custom_counts-rate, follow-AreCounted,
}
use scrambler.Window.DuplicateSteps.{
  IsCopyUsable, update-IsCopyUsable, rate-keeps-count, IsDuplicateSet, rated, still_shown,
  IsCountStep-IsCopyUsable, set_count_of-IsCountStep, set_count-IsCountStep,
  counts_follow-IsCountStep,
}

both_true : (a b : Bool) → (a && b) ≡ true → (a ≡ true) × (b ≡ true)
both_true true b h = (refl, h)
both_true false b h = absurd (cc h)

twice_not : (b : Bool) → b ≡ not (not b)
twice_not true = refl
twice_not false = refl

recounted :
    {F : Type 0} (custom custom' apart apart' : Bool) (s : Sliders) (e : EffectConfig F)
    → custom' ≡ custom
    → apart' ≡ apart
    → AreCounted custom apart s e
    → AreCounted custom' apart' s e
recounted custom custom' apart apart' s e h k counted = rw (h, k) counted

module _ {F : Type 0} ⦃f : Float F⦄ (percent : ℕ → F) where
  abbrev IsDuplicateShown : DuplicateControls (EffectConfig F) → Type 0
  IsDuplicateShown c = IsDuplicateSet percent c × IsCopyUsable c

  -- The shared count can be moved only with custom copies and without separate directions.
  moves_count-IsDuplicateShown :
      (v : ℤ) (c : DuplicateControls (EffectConfig F))
      → (c.custom ≡ true) × (c.chance.asymmetric ≡ false)
      → IsDuplicateShown c
      → IsDuplicateShown (set_count v c)
  moves_count-IsDuplicateShown v c (on, together) (s, u) =
      let step = set_count-IsCountStep percent v c s.chance in
      let (range, counts) = rw (on, together) at s.count in
      (
        record {
          chance = step.chance;
          count =
              rw (step.same_custom, step.same_asymmetric, on, together)
                (unfold set_count in
                  shared-AreCounted v c.count c.chance.effects range (λ stays. counts));
        },
        IsCountStep-IsCopyUsable percent c (set_count v c) step u,
      )

  moves_count_of-IsDuplicateShown :
      (dir : Bool) (v : ℤ) (c : DuplicateControls (EffectConfig F))
      → (c.custom ≡ true) × (c.chance.asymmetric ≡ true)
      → IsDuplicateShown c
      → IsDuplicateShown (set_count_of dir v c)
  moves_count_of-IsDuplicateShown dir v c (on, apart) (s, u) =
      let step = set_count_of-IsCountStep percent dir v c s.chance in
      (
        record {
          chance = step.chance;
          count =
              rw (step.same_custom, step.same_asymmetric, on, apart)
                (unfold set_count_of in
                  moved-AreCounted dir v c.count c.chance.effects (rw (on, apart) at s.count));
        },
        IsCountStep-IsCopyUsable percent c (set_count_of dir v c) step u,
      )

  -- The box for custom copies.
  custom-IsDuplicateShown :
      (checked : Bool) (c : DuplicateControls (EffectConfig F))
      → IsDuplicateSet percent c
      → IsDuplicateShown (duplicate_custom_count_toggled checked (record c { custom = checked }))
  unfolding duplicate_custom_count_toggled update_duplicate_copy_controls_visibility
  custom-IsDuplicateShown checked c s = (
    record {
      chance =
          still_shown percent c.chance _ s.chance
            (λ d. custom_counts-rate checked c.chance.asymmetric c.count c.chance.effects d);
      count = custom-AreCounted checked c.chance.asymmetric c.count c.chance.effects s.count.0;
    },
    record { visible = refl; directions = refl; enabled = refl },
  )

  updated :
      (c : DuplicateControls (EffectConfig F))
      → IsDuplicateSet percent c
      → IsDuplicateShown (update_duplicate_copy_controls_visibility c)
  unfolding update_duplicate_copy_controls_visibility
  updated c s = (record { chance = s.chance; count = s.count }, update-IsCopyUsable c)

  -- The box for separate directions, once the controls of the chance have followed it.
  followed-IsDuplicateShown :
      (c : DuplicateControls (EffectConfig F)) (k : Controls (EffectConfig F))
      → IsDuplicateSet percent c
      → IsShown (duplicate_effect percent) 0 100 (shown_rate percent) k
      → k.asymmetric ≡ not c.chance.asymmetric
      → ((d : Bool) → read_count d k.effects ≡ read_count d c.chance.effects)
      → IsDuplicateSet percent (counts_follow (not c.chance.asymmetric) (record c { chance = k }))
  followed-IsDuplicateShown c k s shown box count =
      let clicked : DuplicateControls (EffectConfig F) = record c { chance = k } in
      let step = counts_follow-IsCountStep percent (not c.chance.asymmetric) clicked shown in
      let before : AreCounted c.custom c.chance.asymmetric c.count k.effects =
        rw (count true, count false) s.count in
      let after = follow-AreCounted (not c.chance.asymmetric) clicked (
        subst (λ b. AreCounted c.custom b c.count k.effects) (twice_not c.chance.asymmetric)
          before) in
      record {
        chance = step.chance;
        count = recounted _ _ _ _ _ _ step.same_custom (step.same_asymmetric ∙ box) after;
      }

  click-IsDuplicateShown :
      (c : DuplicateControls (EffectConfig F))
      → IsDuplicateSet percent c
      → IsDuplicateShown (click_duplicate_asymmetric percent c)
  unfolding click_duplicate_asymmetric
  click-IsDuplicateShown c s =
      let effect = duplicate_effect percent in
      let k = click_asymmetric effect 0 100 c.chance in
      updated (counts_follow (not c.chance.asymmetric) (record c { chance = k })) (
        followed-IsDuplicateShown c k s
          (clicked-IsShown effect 0 100 (shown_rate percent) (duplicate-IsEffect percent 100)
            (omega arith) c.chance s.chance)
          (click-asymmetric effect 0 100 c.chance)
          (λ d. click-keeps effect read_count 0 100 (rate-keeps-count percent) d c.chance))

  act-IsDuplicateShown :
      (c : DuplicateControls (EffectConfig F)) (a : DuplicateAction)
      → IsDuplicateShown c
      → IsDuplicateShown (duplicate_act percent c a)
  unfolding duplicate_act
  act-IsDuplicateShown c (moves_duplicates v) (s, u) =
      let effect = duplicate_effect percent in
      rated percent c (set_shared effect 0 100 v c.chance) s u
        (set_shared-IsShown effect 0 100 (shown_rate percent) (duplicate-IsEffect percent 100)
          (omega arith) v c.chance s.chance)
        (set_shared-flag effect 0 100 (λ k. k.asymmetric) (λ k x d e. refl) v c.chance)
        (λ d. set_shared-keeps effect read_count 0 100 (rate-keeps-count percent) d v c.chance)
  act-IsDuplicateShown c (moves_duplicates_of dir v) (s, u) =
      let effect = duplicate_effect percent in
      rated percent c (set_direction effect 0 100 dir v c.chance) s u
        (set_direction-IsShown effect 0 100 (shown_rate percent) (duplicate-IsEffect percent 100)
          (omega arith) dir v c.chance s.chance)
        (set_direction-flag effect 0 100 (λ k. k.asymmetric) (λ k x d e. refl) dir v c.chance)
        (λ d.
          set_direction-keeps effect read_count 0 100 (rate-keeps-count percent) d dir v c.chance)
  act-IsDuplicateShown c (moves_count v) (s, u) =
      by_if IsDuplicateShown c.count_enabled (set_count v c) c
        (λ e.
          let (on, other) = both_true c.custom (not c.chance.asymmetric) (sym u.enabled ∙ e) in
          moves_count-IsDuplicateShown v c (on, not-true c.chance.asymmetric other) (s, u))
        (λ e. (s, u))
  act-IsDuplicateShown c (moves_count_of dir v) (s, u) =
      by_if IsDuplicateShown c.count_directions_visible (set_count_of dir v c) c
        (λ e.
          moves_count_of-IsDuplicateShown dir v c
            (both_true c.custom c.chance.asymmetric (sym u.directions ∙ e)) (s, u))
        (λ e. (s, u))
  act-IsDuplicateShown c clicks_custom (s, u) = custom-IsDuplicateShown (not c.custom) c s
  act-IsDuplicateShown c clicks_duplicate_asymmetric (s, u) = click-IsDuplicateShown c s

  -- From controls that agree with the settings, after any actions of the user in any order: the
  -- chance of a duplicate is, in each direction, what the slider of the direction shows. Without
  -- custom copies there is one extra copy in both directions. With custom copies and separate
  -- directions each count is what its slider shows; with custom copies for both directions the
  -- outbound count is what the shared slider shows, and the inbound one is that, or still
  -- what the inbound slider has, which is hidden then. The sliders of the count can be used
  -- exactly in these states, and stay in their range.
  pub duplicate_controls_shown :
      (c : DuplicateControls (EffectConfig F)) (acts : List DuplicateAction)
      → IsDuplicateSet percent c
      → IsCopyUsable c
      → IsDuplicateSet percent (foldl (duplicate_act percent) c acts)
        × IsCopyUsable (foldl (duplicate_act percent) c acts)
  duplicate_controls_shown c [] s u = (s, u)
  duplicate_controls_shown c (a ∷ acts) s u =
      let (s', u') = act-IsDuplicateShown c a (s, u) in
      duplicate_controls_shown (duplicate_act percent c a) acts s' u'

-- ===== src/Window/DuplicateSteps.antt =====
-- What the controls of duplicates show, and what a step on one setting leaves of the other.
use scrambler.Prelude.{ℕ, ◌≡◌, refl, ◌∙◌, ℤ, pos, Bool, true, false, not, ◌&&◌}
use scrambler.Rates.{Float}
use scrambler.Config.Direction
use scrambler.Config.Effects
use scrambler.Config.Effects.{EffectConfig}
use scrambler.Window.Sliders.{Controls, set_direction, set_shared}
use scrambler.Window.Shown.{IsShown, by_if}
use scrambler.Window.Bursts.{Sliders, controls_of}
use scrambler.Window.BurstShown.{shown_rate}
use scrambler.Window.Framed.{Keeps, field_kept, set_direction-keeps, set_shared-keeps}
use scrambler.Window.Duplicates.{
  DuplicateControls, duplicate_effect, duplicate_count_effect,
  update_duplicate_copy_controls_visibility, on_count, set_count_of, set_count, counts_follow,
}
use scrambler.Window.Counted.{read_count, read_rate, count-keeps-rate, AreCounted}
use scrambler.Window.CountSteps.{low, high}

-- The count can be set with the box for custom copies: one for both, or one for each direction.
pub record IsCopyUsable {E : Type 0} (c : DuplicateControls E) : Type 0 where
  pub visible : c.count_visible ≡ (c.custom && not c.chance.asymmetric)
  pub directions : c.count_directions_visible ≡ (c.custom && c.chance.asymmetric)
  pub enabled : c.count_enabled ≡ (c.custom && not c.chance.asymmetric)

pub update-IsCopyUsable :
    {E : Type 0} (c : DuplicateControls E)
    → IsCopyUsable (update_duplicate_copy_controls_visibility c)
unfolding update_duplicate_copy_controls_visibility
update-IsCopyUsable c = record { visible = refl; directions = refl; enabled = refl }

module _ {F : Type 0} ⦃f : Float F⦄ (percent : ℕ → F) where
  pub rate-keeps-count : Keeps (duplicate_effect percent) read_count
  unfolding Effects.set_duplicate_rate Effects.duplicate_count Direction.set_duplicate_rate
  rate-keeps-count dir v d e =
      field_kept (λ c. c.duplicate_count) (Direction.set_duplicate_rate (percent v)) (λ c. refl) dir
        d e

  -- The settings are what the controls say.
  pub record IsDuplicateSet (c : DuplicateControls (EffectConfig F)) : Type 0 where
    pub chance : IsShown (duplicate_effect percent) 0 100 (shown_rate percent) c.chance
    pub count : AreCounted c.custom c.chance.asymmetric c.count c.chance.effects

  -- A step on the controls of the chance.
  pub rated :
      (c : DuplicateControls (EffectConfig F)) (k : Controls (EffectConfig F))
      → IsDuplicateSet c
      → IsCopyUsable c
      → IsShown (duplicate_effect percent) 0 100 (shown_rate percent) k
      → k.asymmetric ≡ c.chance.asymmetric
      → ((d : Bool) → read_count d k.effects ≡ read_count d c.chance.effects)
      → IsDuplicateSet (record c { chance = k }) × IsCopyUsable (record c { chance = k })
  rated c k s u shown box count = (
    record { chance = shown; count = rw (box, count true, count false) s.count },
    record {
      visible = rw box u.visible;
      directions = rw box u.directions;
      enabled = rw box u.enabled;
    },
  )

  -- The chance is still shown where another setting has changed.
  pub still_shown :
      (k : Controls (EffectConfig F)) (e : EffectConfig F)
      → IsShown (duplicate_effect percent) 0 100 (shown_rate percent) k
      → ((d : Bool) → read_rate d e ≡ read_rate d k.effects)
      → IsShown (duplicate_effect percent) 0 100 (shown_rate percent) (record k { effects = e })
  still_shown k e s same = record {
    in_range = s.in_range;
    shared_in_range = s.shared_in_range;
    reads = λ d. same d ∙ s.reads d;
  }

  -- What a step on the count leaves alone.
  pub record IsCountStep (c c' : DuplicateControls (EffectConfig F)) : Type 0 where
    pub chance : IsShown (duplicate_effect percent) 0 100 (shown_rate percent) c'.chance
    pub same_custom : c'.custom ≡ c.custom
    pub same_asymmetric : c'.chance.asymmetric ≡ c.chance.asymmetric
    pub same_visible : c'.count_visible ≡ c.count_visible
    pub same_directions : c'.count_directions_visible ≡ c.count_directions_visible
    pub same_enabled : c'.count_enabled ≡ c.count_enabled

  pub IsCountStep-IsCopyUsable :
      (c c' : DuplicateControls (EffectConfig F))
      → IsCountStep c c'
      → IsCopyUsable c
      → IsCopyUsable c'
  IsCountStep-IsCopyUsable c c' s u = record {
    visible = rw (s.same_visible, s.same_custom, s.same_asymmetric) u.visible;
    directions = rw (s.same_directions, s.same_custom, s.same_asymmetric) u.directions;
    enabled = rw (s.same_enabled, s.same_custom, s.same_asymmetric) u.enabled;
  }

  on_count-IsCountStep :
      (g : Controls (EffectConfig F) → Controls (EffectConfig F))
      (c : DuplicateControls (EffectConfig F))
      → IsShown (duplicate_effect percent) 0 100 (shown_rate percent) c.chance
      → ((k : Controls (EffectConfig F)) (d : Bool)
          → read_rate d (g k).effects ≡ read_rate d k.effects)
      → IsCountStep c (on_count g c)
  on_count-IsCountStep g c s same = record {
    chance =
        still_shown c.chance (g (controls_of c.count c.chance.effects)).effects s
          (same (controls_of c.count c.chance.effects));
    same_custom = refl;
    same_asymmetric = refl;
    same_visible = refl;
    same_directions = refl;
    same_enabled = refl;
  }

  pub set_count_of-IsCountStep :
      (dir : Bool) (v : ℤ) (c : DuplicateControls (EffectConfig F))
      → IsShown (duplicate_effect percent) 0 100 (shown_rate percent) c.chance
      → IsCountStep c (set_count_of dir v c)
  unfolding set_count_of
  set_count_of-IsCountStep dir v c s =
      on_count-IsCountStep (set_direction (duplicate_count_effect c.custom) low high dir v) c s
        (λ k d.
          set_direction-keeps (duplicate_count_effect c.custom) read_rate low high
            (count-keeps-rate c.custom) d dir v k)

  nothing-IsCountStep :
      (c : DuplicateControls (EffectConfig F)) (s : Sliders)
      → IsShown (duplicate_effect percent) 0 100 (shown_rate percent) c.chance
      → IsCountStep c (record c { count = s })
  nothing-IsCountStep c s shown = record {
    chance = shown;
    same_custom = refl;
    same_asymmetric = refl;
    same_visible = refl;
    same_directions = refl;
    same_enabled = refl;
  }

  pub set_count-IsCountStep :
      (v : ℤ) (c : DuplicateControls (EffectConfig F))
      → IsShown (duplicate_effect percent) 0 100 (shown_rate percent) c.chance
      → IsCountStep c (set_count v c)
  unfolding set_count
  set_count-IsCountStep v c s =
      by_if (IsCountStep c) c.custom
        (on_count (set_shared (duplicate_count_effect true) low high v) c) _
        (λ on.
          on_count-IsCountStep (set_shared (duplicate_count_effect true) low high v) c s (λ k d.
            set_shared-keeps (duplicate_count_effect true) read_rate low high
              (count-keeps-rate true) d v k))
        (λ off. nothing-IsCountStep c _ s)

  pub counts_follow-IsCountStep :
      (checked : Bool) (c : DuplicateControls (EffectConfig F))
      → IsShown (duplicate_effect percent) 0 100 (shown_rate percent) c.chance
      → IsCountStep c (counts_follow checked c)
  unfolding counts_follow
  counts_follow-IsCountStep true c s =
      let first = set_count_of true (pos c.count.shared) c in
      let one = set_count_of-IsCountStep true (pos c.count.shared) c s in
      let two = set_count_of-IsCountStep false (pos c.count.shared) first one.chance in
      by_if (IsCountStep c) c.custom (set_count_of false (pos c.count.shared) first) c
        (λ on. record {
          chance = two.chance;
          same_custom = two.same_custom ∙ one.same_custom;
          same_asymmetric = two.same_asymmetric ∙ one.same_asymmetric;
          same_visible = two.same_visible ∙ one.same_visible;
          same_directions = two.same_directions ∙ one.same_directions;
          same_enabled = two.same_enabled ∙ one.same_enabled;
        })
        (λ off. nothing-IsCountStep c c.count s)
  counts_follow-IsCountStep false c s =
      by_if (IsCountStep c) c.custom (set_count (pos (c.count.direction true)) c) c
        (λ on. set_count-IsCountStep (pos (c.count.direction true)) c s)
        (λ off. nothing-IsCountStep c c.count s)

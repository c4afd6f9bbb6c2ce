-- ===== src/Window/Framed.antt =====
-- What the controls of one effect leave alone: the other settings.
use scrambler.Prelude.{ℕ, ◌≡◌, refl, ◌∙◌, ℤ, pos, clamp, Bool, true, false, not, ◌==◌}
use scrambler.Config.Direction.{DirectionEffectConfig}
use scrambler.Config.Effects.{EffectConfig, config_for_direction, change_direction}
use scrambler.Window.Sliders.{
  Effect, Controls, direction_changed, set_direction, sync_slider_value, shared_changed, set_shared,
  asymmetric_toggled, click_asymmetric, step_value, adjust,
}
use scrambler.Window.Shown.{by_if}
use scrambler.Window.Unchecked.{
  Action, moves_shared, moves_direction, clicks_asymmetric, steps, act,
}

module _ {E V W : Type 0} (effect : Effect E V) (read : Bool → E → W) where
  -- What is read stays when the effect is set.
  abbrev pub Keeps : Type 0
  Keeps = (dir : Bool) (v : ℕ) (d : Bool) (e : E) → read d (effect.apply dir v e) ≡ read d e

  module _ (low high : ℕ) (k : Keeps) (d : Bool) where
    Same : Controls E → Controls E → Type 0
    Same c c' = read d c'.effects ≡ read d c.effects

    pub set_direction-keeps :
        (dir : Bool) (v : ℤ) (c : Controls E)
        → read d (set_direction effect low high dir v c).effects ≡ read d c.effects
    unfolding set_direction Same
    set_direction-keeps dir v c =
        by_if (Same c) (clamp v low high == c.direction dir) c
          (direction_changed effect low high dir (clamp v low high) c) (λ e. refl)
          (λ e. k dir (clamp v low high) d c.effects)

    sync-keeps :
        (dir : Bool) (v : ℕ) (c : Controls E)
        → read d (sync_slider_value effect low high dir v c).effects ≡ read d c.effects
    unfolding sync_slider_value Same
    sync-keeps dir v c =
        by_if (Same c) (c.direction dir == v) c (set_direction effect low high dir (pos v) c)
          (λ e. refl) (λ e. set_direction-keeps dir (pos v) c)

    shared_changed-keeps :
        (v : ℕ) (c : Controls E)
        → read d (shared_changed effect low high v c).effects ≡ read d c.effects
    unfolding shared_changed
    shared_changed-keeps v c =
        let set_both : Controls E = record c {
          shared = v;
          effects = effect.apply false v (effect.apply true v c.effects);
        } in
        sync-keeps false v (sync_slider_value effect low high true v set_both)
        ∙ sync-keeps true v set_both
        ∙ k false v d (effect.apply true v c.effects)
        ∙ k true v d c.effects

    pub set_shared-keeps :
        (v : ℤ) (c : Controls E)
        → read d (set_shared effect low high v c).effects ≡ read d c.effects
    unfolding set_shared Same
    set_shared-keeps v c =
        by_if (Same c) (clamp v low high == c.shared) c
          (shared_changed effect low high (clamp v low high) c) (λ e. refl)
          (λ e. shared_changed-keeps (clamp v low high) c)

    pub click-keeps :
        (c : Controls E) → read d (click_asymmetric effect low high c).effects ≡ read d c.effects
    unfolding click_asymmetric asymmetric_toggled Same
    click-keeps c =
        let c₁ : Controls E = record c { asymmetric = not c.asymmetric } in
        let out = set_direction effect low high true (pos c.shared) c₁ in
        by_if (Same c) (not c.asymmetric) (set_direction effect low high false (pos c.shared) out)
          (set_shared effect low high (pos (c.direction true)) c₁)
          (λ e.
            set_direction-keeps false (pos c.shared) out
            ∙ set_direction-keeps true (pos c.shared) c₁)
          (λ e. set_shared-keeps (pos (c.direction true)) c₁)

    pub act-keeps :
        (c : Controls E) (a : Action) → read d (act effect low high c a).effects ≡ read d c.effects
    unfolding act adjust Same
    act-keeps c (moves_shared v) = set_shared-keeps v c
    act-keeps c (moves_direction dir v) = set_direction-keeps dir v c
    act-keeps c clicks_asymmetric = click-keeps c
    act-keeps c (steps up step) =
        let first = set_direction effect low high true (step_value up step (c.direction true)) c in
        let v = step_value up step (first.direction false) in
        by_if (Same c) c.asymmetric (set_direction effect low high false v first)
          (set_shared effect low high (step_value up step c.shared) c)
          (λ e.
            set_direction-keeps false v first
            ∙ set_direction-keeps true (step_value up step (c.direction true)) c)
          (λ e. set_shared-keeps (step_value up step c.shared) c)

-- A change of a direction that leaves a field alone, in either direction.
pub field_kept :
    {F W : Type 0} (field : DirectionEffectConfig F → W)
    (g : DirectionEffectConfig F → DirectionEffectConfig F)
    → ((c : DirectionEffectConfig F) → field (g c) ≡ field c)
    → (dir d : Bool) (e : EffectConfig F)
    → field (config_for_direction (change_direction dir g e) d) ≡ field (config_for_direction e d)
field_kept field g h true true e = h e.outbound
field_kept field g h true false e = refl
field_kept field g h false true e = refl
field_kept field g h false false e = h e.inbound

-- What does not depend on the values of the sliders nor on the settings: the boxes and what can be
-- used.
module _ {E V X : Type 0} (effect : Effect E V) (low high : ℕ) (flag : Controls E → X)
    (free : (c : Controls E) (shared : ℕ) (direction : Bool → ℕ) (effects : E)
      → flag (record c { shared = shared; direction = direction; effects = effects })
        ≡ flag c) where
  pub set_direction-flag :
      (dir : Bool) (v : ℤ) (c : Controls E) → flag (set_direction effect low high dir v c) ≡ flag c
  unfolding set_direction
  set_direction-flag dir v c =
      by_if (λ c'. flag c' ≡ flag c) (clamp v low high == c.direction dir) c
        (direction_changed effect low high dir (clamp v low high) c) (λ e. refl)
        (λ e. free c c.shared _ (effect.apply dir (clamp v low high) c.effects))

  sync-flag :
      (dir : Bool) (v : ℕ) (c : Controls E)
      → flag (sync_slider_value effect low high dir v c) ≡ flag c
  unfolding sync_slider_value
  sync-flag dir v c =
      by_if (λ c'. flag c' ≡ flag c) (c.direction dir == v) c
        (set_direction effect low high dir (pos v) c) (λ e. refl)
        (λ e. set_direction-flag dir (pos v) c)

  pub set_shared-flag : (v : ℤ) (c : Controls E) → flag (set_shared effect low high v c) ≡ flag c
  unfolding set_shared shared_changed
  set_shared-flag v c =
      let value = clamp v low high in
      let set_both : Controls E = record c {
        shared = value;
        effects = effect.apply false value (effect.apply true value c.effects);
      } in
      by_if (λ c'. flag c' ≡ flag c) (value == c.shared) c (shared_changed effect low high value c)
        (λ e. refl)
        (λ e.
          sync-flag false value (sync_slider_value effect low high true value set_both)
          ∙ sync-flag true value set_both
          ∙ free c value c.direction set_both.effects)

  pub adjust-flag :
      (up : Bool) (step : ℕ) (c : Controls E) → flag (adjust effect low high up step c) ≡ flag c
  unfolding adjust
  adjust-flag up step c =
      let first = set_direction effect low high true (step_value up step (c.direction true)) c in
      let v = step_value up step (first.direction false) in
      by_if (λ c'. flag c' ≡ flag c) c.asymmetric (set_direction effect low high false v first)
        (set_shared effect low high (step_value up step c.shared) c)
        (λ e.
          set_direction-flag false v first
          ∙ set_direction-flag true (step_value up step (c.direction true)) c)
        (λ e. set_shared-flag (step_value up step c.shared) c)

-- A click turns the box over.
pub click-asymmetric :
    {E V : Type 0} (effect : Effect E V) (low high : ℕ) (c : Controls E)
    → (click_asymmetric effect low high c).asymmetric ≡ not c.asymmetric
unfolding click_asymmetric asymmetric_toggled
click-asymmetric {E} effect low high c =
    let c₁ : Controls E = record c { asymmetric = not c.asymmetric } in
    let out = set_direction effect low high true (pos c.shared) c₁ in
    by_if (λ (k : Controls E). k.asymmetric ≡ not c.asymmetric) (not c.asymmetric)
      (set_direction effect low high false (pos c.shared) out)
      (set_shared effect low high (pos (c.direction true)) c₁)
      (λ e.
        set_direction-flag effect low high (λ k. k.asymmetric) (λ k s d x. refl) false
          (pos c.shared) out
        ∙ set_direction-flag effect low high (λ k. k.asymmetric) (λ k s d x. refl) true
            (pos c.shared) c₁)
      (λ e.
        set_shared-flag effect low high (λ k. k.asymmetric) (λ k s d x. refl)
          (pos (c.direction true)) c₁)

-- ===== src/Window/Unchecked.antt =====
-- The controls of an effect over any actions, and what clearing the box for separate directions does.
use scrambler.Prelude.{
  inl, inr, ◌⊎◌, ℕ, ◌≤◌, ◌≡◌, ◌≢◌, refl, sym, ◌∙◌, ℤ, pos, clamp, Bool, true, false, not, List, [],
  ◌∷◌, foldl, ◌==◌, ==_true, arith,
}
use scrambler.Window.Sliders.{
  Effect, Controls, set_direction, shared_changed, set_shared, asymmetric_toggled, click_asymmetric,
  step_value, adjust,
}
use scrambler.Window.Shown.{
  IsEffect, IsShown, by_if, clamp_fits, set_direction-IsShown, shared_changed-IsAligned,
  set_shared-IsShown,
}

-- What the user does to the controls, or a hotkey.
pub data Action : Type 0 where
  moves_shared : ℤ → Action
  moves_direction : Bool → ℤ → Action
  clicks_asymmetric : Action
  steps : (up : Bool) → (step : ℕ) → Action

differ : (m n : ℕ) → (m == n) ≡ false → m ≢ n
differ m n h e = ground arith

module _ {E V : Type 0} (effect : Effect E V) (low high : ℕ) where
  unfoldable pub act : Controls E → Action → Controls E
  unfolding set_shared set_direction click_asymmetric adjust
  act c (moves_shared v) = set_shared effect low high v c
  act c (moves_direction dir v) = set_direction effect low high dir v c
  act c clicks_asymmetric = click_asymmetric effect low high c
  act c (steps up step) = adjust effect low high up step c

  module _ (shown : ℕ → V) where
    -- What clearing the box leaves behind, from `c` to `c'`.
    abbrev pub IsCleared : Controls E → Controls E → Type 0
    IsCleared c c' =
        IsShown effect low high shown c'
        × (c'.shared ≡ c.direction true)
        × (c'.direction true ≡ c.direction true)
        × (((c.shared ≢ c.direction true) × (c'.direction false ≡ c.direction true))
            ⊎ ((c.shared ≡ c.direction true)
                × (c'.direction false ≡ c.direction false)
                × (c'.effects ≡ c.effects)))

    module _ (i : IsEffect effect low high shown) (range : low ≤ high) where
      -- The flags of the widgets are not what is shown.
      pub flagged-IsShown :
          (checked enabled visible : Bool) (c : Controls E)
          → IsShown effect low high shown c
          → IsShown effect low high shown (record c {
            asymmetric = checked;
            shared_enabled = enabled;
            directions_visible = visible;
          })
      flagged-IsShown checked enabled visible c s = record {
        in_range = s.in_range;
        shared_in_range = s.shared_in_range;
        reads = s.reads;
      }

      pub clicked-IsShown :
          (c : Controls E)
          → IsShown effect low high shown c
          → IsShown effect low high shown (click_asymmetric effect low high c)
      unfolding click_asymmetric asymmetric_toggled
      clicked-IsShown c s =
          let c₁ : Controls E = record c { asymmetric = not c.asymmetric } in
          let s₁ = flagged-IsShown (not c.asymmetric) c.shared_enabled c.directions_visible c s in
          let moved =
            by_if (IsShown effect low high shown) (not c.asymmetric)
              (set_direction effect low high false (pos c.shared)
                (set_direction effect low high true (pos c.shared) c₁))
              (set_shared effect low high (pos (c.direction true)) c₁)
              (λ e.
                set_direction-IsShown effect low high shown i range false (pos c.shared)
                  (set_direction effect low high true (pos c.shared) c₁)
                  (set_direction-IsShown effect low high shown i range true (pos c.shared) c₁ s₁))
              (λ e.
                set_shared-IsShown effect low high shown i range (pos (c.direction true)) c₁ s₁) in
          flagged-IsShown _ _ _ _ moved

      pub act-IsShown :
          (c : Controls E) (a : Action)
          → IsShown effect low high shown c
          → IsShown effect low high shown (act c a)
      unfolding act adjust
      act-IsShown c (moves_shared v) s = set_shared-IsShown effect low high shown i range v c s
      act-IsShown c (moves_direction dir v) s =
          set_direction-IsShown effect low high shown i range dir v c s
      act-IsShown c clicks_asymmetric s = clicked-IsShown c s
      act-IsShown c (steps up step) s =
          let first =
            set_direction effect low high true (step_value up step (c.direction true)) c in
          let v = step_value up step (first.direction false) in
          by_if (IsShown effect low high shown) c.asymmetric
            (set_direction effect low high false v first)
            (set_shared effect low high (step_value up step c.shared) c)
            (λ e. set_direction-IsShown effect low high shown i range false v first (
              set_direction-IsShown effect low high shown i range true
                (step_value up step (c.direction true)) c s))
            (λ e.
              set_shared-IsShown effect low high shown i range (step_value up step c.shared) c s)

      acts-IsShown :
          (c : Controls E) (acts : List Action)
          → IsShown effect low high shown c
          → IsShown effect low high shown (foldl act c acts)
      acts-IsShown c [] s = s
      acts-IsShown c (a ∷ acts) s = acts-IsShown (act c a) acts (act-IsShown c a s)

      cleared :
          (c : Controls E)
          → IsShown effect low high shown c
          → c.asymmetric ≡ true
          → IsCleared c (click_asymmetric effect low high c)
      unfolding click_asymmetric asymmetric_toggled set_shared
      cleared c s on =
          let c₁ : Controls E = record c { asymmetric = not c.asymmetric } in
          let s₁ = flagged-IsShown (not c.asymmetric) c.shared_enabled c.directions_visible c s in
          let v = clamp (pos (c.direction true)) low high in
          let fits : v ≡ c.direction true =
            clamp_fits (c.direction true) low high (s.in_range true).0 (s.in_range true).1 in
          let P : Controls E → Type 0 = λ moved. IsCleared c (record moved {
            shared_enabled = not (not c.asymmetric);
            directions_visible = not c.asymmetric;
          }) in
          by_if P (not c.asymmetric)
            (set_direction effect low high false (pos c.shared)
              (set_direction effect low high true (pos c.shared) c₁))
            (set_shared effect low high (pos (c.direction true)) c₁) (λ e. absurd (cc (rw on at e)))
            (λ e.
              by_if P (v == c.shared) c₁ (shared_changed effect low high v c₁)
                (λ stays.
                  let same : c.shared ≡ c.direction true = sym (==_true v c.shared stays) ∙ fits in
                  (flagged-IsShown _ _ _ c s, same, refl, inr (same, refl, refl)))
                (λ moves.
                  let a =
                    shared_changed-IsAligned effect low high shown i range v c₁
                      (rw fits (s.in_range true).0) (rw fits (s.in_range true).1) s₁.in_range in
                  (
                    flagged-IsShown _ _ _ _ a.is_shown,
                    a.shared_is ∙ fits,
                    a.directions_are true ∙ fits,
                    inl (
                      λ h. differ v c.shared moves (fits ∙ sym h),
                      a.directions_are false ∙ fits,
                    ),
                  )))

      -- From controls that show their settings, after any actions on them, of the user or by hotkey,
      -- in any order, if the box for separate directions is then on: the setting of each
      -- direction is what its slider shows. When the box for separate directions is then cleared,
      -- the shared slider takes the outbound value. If that is a change, the inbound direction
      -- takes it too. If the shared slider already had it, nothing else happens: the inbound direction
      -- keeps a setting of its own, which the shared slider does not show.
      pub unchecked_box :
          (c₀ : Controls E) (acts : List Action)
          → IsShown effect low high shown c₀
          → (foldl act c₀ acts).asymmetric ≡ true
          → let c = foldl act c₀ acts in
            IsShown effect low high shown c × IsCleared c (click_asymmetric effect low high c)
      unchecked_box c₀ acts s₀ on =
          let s = acts-IsShown c₀ acts s₀ in (s, cleared (foldl act c₀ acts) s on)

-- ===== src/Window/Counted.antt =====
-- What the settings of duplicates are beside their controls, and the steps on the count.
use scrambler.Prelude.{
  ℕ, ◌≤◌, ◌≡◌, refl, sym, ◌∙◌, ◌⊎◌, inl, inr, pos, clamp, Bool, true, false, not, ◌==◌, ==_true,
}
use scrambler.Config.Direction
use scrambler.Config.Direction.{max_duplicate_copies, default_duplicate_copies}
use scrambler.Config.Effects
use scrambler.Config.Effects.{EffectConfig}
use scrambler.Window.Sliders.{Effect, Controls, direction_changed, set_direction}
use scrambler.Window.Shown.{by_if, clamp_fits}
use scrambler.Window.Wired.{duplicate_count-IsEffect}
use scrambler.Window.Bursts.{Sliders}
use scrambler.Window.Framed.{Keeps, field_kept}
use scrambler.Window.Duplicates.{duplicate_count_effect, both_counts}

module _ {F : Type 0} where
  abbrev pub read_count : Bool → EffectConfig F → ℕ
  read_count dir e = Effects.duplicate_count e dir

  abbrev pub read_rate : Bool → EffectConfig F → F
  read_rate dir e = Effects.duplicate_rate e dir

  pub count-keeps-rate : (custom : Bool) → Keeps (duplicate_count_effect {F = F} custom) read_rate
  unfolding Effects.set_duplicate_count Effects.duplicate_rate Direction.set_duplicate_count
  count-keeps-rate true dir v d e =
      field_kept (λ c. c.duplicate_rate) (Direction.set_duplicate_count (pos v)) (λ c. refl) dir d e
  count-keeps-rate false dir v d e = refl

  pub both_counts-rate :
      (m n : ℕ) (d : Bool) (e : EffectConfig F) → read_rate d (both_counts m n e) ≡ read_rate d e
  both_counts-rate m n d e =
      count-keeps-rate true false n d (Effects.set_duplicate_count true (pos m) e)
      ∙ count-keeps-rate true true m d e

-- What the two counts are, for the box of custom copies and that of separate directions.
abbrev pub CountsAre : (custom asymmetric : Bool) → Sliders → (out inbound : ℕ) → Type 0
CountsAre false asymmetric s out inbound =
    (out ≡ default_duplicate_copies) × (inbound ≡ default_duplicate_copies)
CountsAre true true s out inbound = (out ≡ s.direction true) × (inbound ≡ s.direction false)
CountsAre true false s out inbound =
    (out ≡ s.shared) × ((inbound ≡ s.shared) ⊎ (inbound ≡ s.direction false))

-- The sliders of the count stay in their range.
pub record IsCountRange (s : Sliders) : Type 0 where
  pub direction :
      (dir : Bool)
      → (default_duplicate_copies ≤ s.direction dir) × (s.direction dir ≤ max_duplicate_copies)
  pub shared : (default_duplicate_copies ≤ s.shared) × (s.shared ≤ max_duplicate_copies)

module _ {F : Type 0} where
  abbrev pub count_effect : Effect (EffectConfig F) ℕ
  count_effect = duplicate_count_effect true

  abbrev pub AreCounted : (custom asymmetric : Bool) → Sliders → EffectConfig F → Type 0
  AreCounted custom asymmetric s e =
      IsCountRange s × CountsAre custom asymmetric s (read_count true e) (read_count false e)

  pub both_counts_lem :
      (m n : ℕ) (e : EffectConfig F)
      → (default_duplicate_copies ≤ m) × (m ≤ max_duplicate_copies)
      → (default_duplicate_copies ≤ n) × (n ≤ max_duplicate_copies)
      → (read_count true (both_counts m n e) ≡ m) × (read_count false (both_counts m n e) ≡ n)
  both_counts_lem m n e (lm, hm) (ln, hn) =
      let i = duplicate_count-IsEffect {F = F} in
      let out = Effects.set_duplicate_count true (pos m) e in
      (i.other false n out ∙ i.set true m e lm hm, i.set false n out ln hn)

  -- The slider of a direction is set to a value of its range.
  pub record IsMoved (dir : Bool) (v : ℕ) (c c' : Controls (EffectConfig F)) : Type 0 where
    pub shared_stays : c'.shared ≡ c.shared
    pub direction_is : c'.direction dir ≡ v
    pub other_stays : c'.direction (not dir) ≡ c.direction (not dir)
    pub count_is : read_count dir c'.effects ≡ v
    pub other_count_stays : read_count (not dir) c'.effects ≡ read_count (not dir) c.effects

  direction_changed-IsMoved :
      (dir : Bool) (v : ℕ) (c : Controls (EffectConfig F))
      → default_duplicate_copies ≤ v
      → v ≤ max_duplicate_copies
      → IsMoved dir v c
          (direction_changed count_effect default_duplicate_copies max_duplicate_copies dir v c)
  direction_changed-IsMoved true v c l h = record {
    shared_stays = refl;
    direction_is = refl;
    other_stays = refl;
    count_is = duplicate_count-IsEffect.set true v c.effects l h;
    other_count_stays = duplicate_count-IsEffect.other true v c.effects;
  }
  direction_changed-IsMoved false v c l h = record {
    shared_stays = refl;
    direction_is = refl;
    other_stays = refl;
    count_is = duplicate_count-IsEffect.set false v c.effects l h;
    other_count_stays = duplicate_count-IsEffect.other false v c.effects;
  }

  pub set_direction-IsMoved :
      (dir : Bool) (v : ℕ) (c : Controls (EffectConfig F))
      → default_duplicate_copies ≤ v
      → v ≤ max_duplicate_copies
      → (read_count dir c.effects ≡ v) ⊎ (read_count dir c.effects ≡ c.direction dir)
      → IsMoved dir v c
          (set_direction count_effect default_duplicate_copies max_duplicate_copies dir (pos v) c)
  unfolding set_direction
  set_direction-IsMoved dir v c l h before =
      let fits = clamp_fits v default_duplicate_copies max_duplicate_copies l h in
      by_if (IsMoved dir v c)
        (clamp (pos v) default_duplicate_copies max_duplicate_copies == c.direction dir) c _
        (λ e.
          let same : c.direction dir ≡ v = sym (==_true _ _ e) ∙ fits in
          record {
            shared_stays = refl;
            direction_is = same;
            other_stays = refl;
            count_is = elim before [ inl is_v ↦ is_v | inr is_dir ↦ is_dir ∙ same ];
            other_count_stays = refl;
          })
        (λ e. rw fits (direction_changed-IsMoved dir v c l h))

-- ===== src/Window/Wired.antt =====
-- The settings that the sliders of the window are wired to.
use scrambler.Prelude.{ℕ, ◌≤◌, ◌≡◌, refl, ◌∙◌, true, false, pos, clamp, ◌==◌, ==_true, arith}
use scrambler.Rates.{Float, clamp_rate}
use scrambler.Config.Direction
use scrambler.Config.Direction.{
  DirectionEffectConfig, max_delay_jitter_ms, max_throttle_kbytes_per_sec, max_burst_drop_length,
  default_duplicate_copies, max_duplicate_copies,
}
use scrambler.Config.Effects
use scrambler.Config.Effects.{EffectConfig, change_direction, config_for_direction}
use scrambler.Window.Sliders.{delay_effect, jitter_effect, throttle_effect, drop_effect}
use scrambler.Window.Bursts.{burst_chance_effect, burst_length_effect}
use scrambler.Window.Duplicates.{duplicate_effect, duplicate_count_effect}
use scrambler.Window.Shown.{IsEffect, by_if, clamp_fits}

within : (v high : ℕ) → v ≤ high → clamp (pos v) 0 high ≡ v
within v high h = ground arith

module _ {F : Type 0} where
  pub delay-IsEffect : (high : ℕ) → IsEffect (delay_effect {F = F}) 0 high (λ v. v)
  unfolding Effects.set_delay_ms Effects.delay Direction.set_delay_ms
  delay-IsEffect high = record {
    set = elim [ true ↦ λ v e l h. refl | false ↦ λ v e l h. refl ];
    other = elim [ true ↦ λ v e. refl | false ↦ λ v e. refl ];
  }

  pub jitter-IsEffect : IsEffect (jitter_effect {F = F}) 0 max_delay_jitter_ms (λ v. v)
  unfolding Effects.set_delay_jitter_ms Effects.delay_jitter Direction.set_delay_jitter_ms
  jitter-IsEffect = record {
    set = elim [
      | true ↦ λ v e l h. within v max_delay_jitter_ms h
      | false ↦ λ v e l h. within v max_delay_jitter_ms h
    ];
    other = elim [ true ↦ λ v e. refl | false ↦ λ v e. refl ];
  }

  throttle_set :
      (v : ℕ) (c : DirectionEffectConfig F)
      → v ≤ max_throttle_kbytes_per_sec
      → (Direction.set_throttle_kbytes_per_sec (pos v) c).throttle_kbytes_per_sec ≡ v
  unfolding Direction.set_throttle_kbytes_per_sec
  throttle_set v c h =
      let clamped = clamp (pos v) 0 max_throttle_kbytes_per_sec in
      by_if (λ (d : DirectionEffectConfig F). d.throttle_kbytes_per_sec ≡ v)
        (c.throttle_kbytes_per_sec == clamped) c _
        (λ e. ==_true _ _ e ∙ within v max_throttle_kbytes_per_sec h)
        (λ e. within v max_throttle_kbytes_per_sec h)

  pub throttle-IsEffect : IsEffect (throttle_effect {F = F}) 0 max_throttle_kbytes_per_sec (λ v. v)
  unfolding Effects.set_throttle_kbytes_per_sec Effects.throttle_kbytes_per_sec
  throttle-IsEffect = record {
    set = elim [
      | true ↦ λ v e l h. throttle_set v e.outbound h
      | false ↦ λ v e l h. throttle_set v e.inbound h
    ];
    other = elim [ true ↦ λ v e. refl | false ↦ λ v e. refl ];
  }

  pub burst_length-IsEffect :
      IsEffect (burst_length_effect {F = F}) 1 max_burst_drop_length (λ v. v)
  unfolding Effects.set_burst_drop_length Effects.burst_drop_length Direction.set_burst_drop_length
  burst_length-IsEffect = record {
    set = elim [
      | true ↦ λ v e l h. clamp_fits v 1 max_burst_drop_length l h
      | false ↦ λ v e l h. clamp_fits v 1 max_burst_drop_length l h
    ];
    other = elim [ true ↦ λ v e. refl | false ↦ λ v e. refl ];
  }

  pub duplicate_count-IsEffect :
      IsEffect
        (duplicate_count_effect {F = F} true)
        default_duplicate_copies
        max_duplicate_copies
        (λ v. v)
  unfolding Effects.set_duplicate_count Effects.duplicate_count Direction.set_duplicate_count
  duplicate_count-IsEffect = record {
    set = elim [
      | true ↦ λ v e l h. clamp_fits v default_duplicate_copies max_duplicate_copies l h
      | false ↦ λ v e l h. clamp_fits v default_duplicate_copies max_duplicate_copies l h
    ];
    other = elim [ true ↦ λ v e. refl | false ↦ λ v e. refl ];
  }

module _ {F : Type 0} ⦃f : Float F⦄ (percent : ℕ → F) where
  pub drop-IsEffect :
      (high : ℕ) → IsEffect (drop_effect percent) 0 high (λ v. clamp_rate (percent v))
  unfolding Effects.set_drop_rate Effects.drop_rate Direction.set_drop_rate
  drop-IsEffect high = record {
    set = elim [ true ↦ λ v e l h. refl | false ↦ λ v e l h. refl ];
    other = elim [ true ↦ λ v e. refl | false ↦ λ v e. refl ];
  }

  pub burst_chance-IsEffect :
      (high : ℕ) → IsEffect (burst_chance_effect percent) 0 high (λ v. clamp_rate (percent v))
  unfolding Effects.set_burst_drop_rate Effects.burst_drop_rate Direction.set_burst_drop_rate
  burst_chance-IsEffect high = record {
    set = elim [ true ↦ λ v e l h. refl | false ↦ λ v e l h. refl ];
    other = elim [ true ↦ λ v e. refl | false ↦ λ v e. refl ];
  }

  pub duplicate-IsEffect :
      (high : ℕ) → IsEffect (duplicate_effect percent) 0 high (λ v. clamp_rate (percent v))
  unfolding Effects.set_duplicate_rate Effects.duplicate_rate Direction.set_duplicate_rate
  duplicate-IsEffect high = record {
    set = elim [ true ↦ λ v e l h. refl | false ↦ λ v e l h. refl ];
    other = elim [ true ↦ λ v e. refl | false ↦ λ v e. refl ];
  }

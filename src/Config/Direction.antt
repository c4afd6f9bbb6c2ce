-- ===== src/Config/Direction.antt =====
-- include/core/EffectConfig.h, `DirectionEffectConfig` and its snapshot. Each atomic field is a
-- field here; an `int` field that every setter keeps from being negative is a natural number.
use scrambler.Prelude.{ℕ, ◌+◌, ◌*◌, ◌%◌, ◌^◌, Bool, false, ◌==◌, if◌then◌else◌, ℤ, clamp, max_zero}
use scrambler.Rates.{Float, clamp_rate}

abbrev pub default_duplicate_copies : ℕ
default_duplicate_copies = 1

abbrev pub max_duplicate_copies : ℕ
max_duplicate_copies = 64

abbrev pub max_delay_jitter_ms : ℕ
max_delay_jitter_ms = 1000

abbrev pub default_burst_drop_length : ℕ
default_burst_drop_length = 3

abbrev pub max_burst_drop_length : ℕ
max_burst_drop_length = 32

abbrev pub max_throttle_kbytes_per_sec : ℕ
max_throttle_kbytes_per_sec = 10_240

pub record DirectionEffectSnapshot (F : Type 0) : Type 0 where
  pub delay : ℕ
  pub delay_jitter_ms : ℕ
  pub throttle_bytes_per_second : ℕ
  pub throttle_revision : ℕ
  pub burst_drop_enabled : Bool
  pub burst_drop_rate : F
  pub burst_drop_length : ℕ
  pub drop_rate : F
  pub duplicate_rate : F
  pub duplicate_count : ℕ

pub record DirectionEffectConfig (F : Type 0) : Type 0 where
  pub delay_ms : ℕ
  pub delay_jitter_ms : ℕ
  pub throttle_kbytes_per_sec : ℕ
  pub throttle_revision : ℕ
  pub burst_drop_enabled : Bool
  pub burst_drop_rate : F
  pub burst_drop_length : ℕ
  pub drop_rate : F
  pub duplicate_rate : F
  pub duplicate_count : ℕ

module _ {F : Type 0} ⦃f : Float F⦄ where
  -- The members' initialisers.
  unfoldable pub default_config : DirectionEffectConfig F
  default_config = record {
    delay_ms = 0;
    delay_jitter_ms = 0;
    throttle_kbytes_per_sec = 0;
    throttle_revision = 0;
    burst_drop_enabled = false;
    burst_drop_rate = f.nought;
    burst_drop_length = default_burst_drop_length;
    drop_rate = f.nought;
    duplicate_rate = f.nought;
    duplicate_count = default_duplicate_copies;
  }

module _ {F : Type 0} where
  unfoldable pub throttle_bytes_per_second : DirectionEffectConfig F → ℕ
  throttle_bytes_per_second c = c.throttle_kbytes_per_sec * 1024

  unfoldable pub snapshot : DirectionEffectConfig F → DirectionEffectSnapshot F
  unfolding throttle_bytes_per_second
  snapshot c = record {
    delay = c.delay_ms;
    delay_jitter_ms = c.delay_jitter_ms;
    throttle_bytes_per_second = throttle_bytes_per_second c;
    throttle_revision = c.throttle_revision;
    burst_drop_enabled = c.burst_drop_enabled;
    burst_drop_rate = c.burst_drop_rate;
    burst_drop_length = c.burst_drop_length;
    drop_rate = c.drop_rate;
    duplicate_rate = c.duplicate_rate;
    duplicate_count = c.duplicate_count;
  }

  unfoldable pub set_delay_ms : ℤ → DirectionEffectConfig F → DirectionEffectConfig F
  set_delay_ms v c = record c { delay_ms = max_zero v }

  unfoldable pub set_delay_jitter_ms : ℤ → DirectionEffectConfig F → DirectionEffectConfig F
  set_delay_jitter_ms v c = record c { delay_jitter_ms = clamp v 0 max_delay_jitter_ms }

  unfoldable pub set_throttle_kbytes_per_sec : ℤ → DirectionEffectConfig F → DirectionEffectConfig F
  set_throttle_kbytes_per_sec v c =
      let clamped = clamp v 0 max_throttle_kbytes_per_sec in
      if c.throttle_kbytes_per_sec == clamped then c else record c {
        throttle_kbytes_per_sec = clamped;
        throttle_revision = (c.throttle_revision + 1) % 2 ^ 64;
      }

  unfoldable pub set_burst_drop_enabled : Bool → DirectionEffectConfig F → DirectionEffectConfig F
  set_burst_drop_enabled enabled c = record c { burst_drop_enabled = enabled }

  unfoldable pub set_burst_drop_length : ℤ → DirectionEffectConfig F → DirectionEffectConfig F
  set_burst_drop_length v c = record c { burst_drop_length = clamp v 1 max_burst_drop_length }

  unfoldable pub set_duplicate_count : ℤ → DirectionEffectConfig F → DirectionEffectConfig F
  set_duplicate_count v c = record c {
    duplicate_count = clamp v default_duplicate_copies max_duplicate_copies;
  }

module _ {F : Type 0} ⦃f : Float F⦄ where
  unfoldable pub set_burst_drop_rate : F → DirectionEffectConfig F → DirectionEffectConfig F
  set_burst_drop_rate rate c = record c { burst_drop_rate = clamp_rate rate }

  unfoldable pub set_drop_rate : F → DirectionEffectConfig F → DirectionEffectConfig F
  set_drop_rate rate c = record c { drop_rate = clamp_rate rate }

  unfoldable pub set_duplicate_rate : F → DirectionEffectConfig F → DirectionEffectConfig F
  set_duplicate_rate rate c = record c { duplicate_rate = clamp_rate rate }

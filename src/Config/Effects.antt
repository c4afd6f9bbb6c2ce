-- ===== src/Config/Effects.antt =====
-- include/core/EffectConfig.h, `EffectConfig`: one configuration for each direction, and every
-- accessor by direction.
use scrambler.Prelude.{ℕ, Bool, true, false, ℤ}
use scrambler.Rates.{Float}
use scrambler.Config.Direction
use scrambler.Config.Direction.{DirectionEffectConfig, DirectionEffectSnapshot}

pub record EffectConfig (F : Type 0) : Type 0 where
  pub outbound : DirectionEffectConfig F
  pub inbound : DirectionEffectConfig F

module _ {F : Type 0} where
  -- `ConfigForDirection`, to read
  abbrev pub config_for_direction : EffectConfig F → Bool → DirectionEffectConfig F
  config_for_direction c true = c.outbound
  config_for_direction c false = c.inbound

  -- `ConfigForDirection`, to change what the reference names
  abbrev pub change_direction :
      Bool → (DirectionEffectConfig F → DirectionEffectConfig F) → EffectConfig F → EffectConfig F
  change_direction true g c = record c { outbound = g c.outbound }
  change_direction false g c = record c { inbound = g c.inbound }

  unfoldable pub snapshot : EffectConfig F → Bool → DirectionEffectSnapshot F
  snapshot c is_outbound = Direction.snapshot (config_for_direction c is_outbound)

  unfoldable pub delay : EffectConfig F → Bool → ℕ
  delay c is_outbound = (config_for_direction c is_outbound).delay_ms

  unfoldable pub delay_jitter : EffectConfig F → Bool → ℕ
  delay_jitter c is_outbound = (config_for_direction c is_outbound).delay_jitter_ms

  unfoldable pub throttle_kbytes_per_sec : EffectConfig F → Bool → ℕ
  throttle_kbytes_per_sec c is_outbound =
      (config_for_direction c is_outbound).throttle_kbytes_per_sec

  unfoldable pub burst_drop_enabled : EffectConfig F → Bool → Bool
  burst_drop_enabled c is_outbound = (config_for_direction c is_outbound).burst_drop_enabled

  unfoldable pub burst_drop_rate : EffectConfig F → Bool → F
  burst_drop_rate c is_outbound = (config_for_direction c is_outbound).burst_drop_rate

  unfoldable pub burst_drop_length : EffectConfig F → Bool → ℕ
  burst_drop_length c is_outbound = (config_for_direction c is_outbound).burst_drop_length

  unfoldable pub drop_rate : EffectConfig F → Bool → F
  drop_rate c is_outbound = (config_for_direction c is_outbound).drop_rate

  unfoldable pub duplicate_rate : EffectConfig F → Bool → F
  duplicate_rate c is_outbound = (config_for_direction c is_outbound).duplicate_rate

  unfoldable pub duplicate_count : EffectConfig F → Bool → ℕ
  duplicate_count c is_outbound = (config_for_direction c is_outbound).duplicate_count

  unfoldable pub set_delay_ms : Bool → ℤ → EffectConfig F → EffectConfig F
  set_delay_ms out v = change_direction out (Direction.set_delay_ms v)

  unfoldable pub set_delay_jitter_ms : Bool → ℤ → EffectConfig F → EffectConfig F
  set_delay_jitter_ms out v = change_direction out (Direction.set_delay_jitter_ms v)

  unfoldable pub set_throttle_kbytes_per_sec : Bool → ℤ → EffectConfig F → EffectConfig F
  set_throttle_kbytes_per_sec out v = change_direction out (Direction.set_throttle_kbytes_per_sec v)

  unfoldable pub set_burst_drop_enabled : Bool → Bool → EffectConfig F → EffectConfig F
  set_burst_drop_enabled out v = change_direction out (Direction.set_burst_drop_enabled v)

  unfoldable pub set_burst_drop_length : Bool → ℤ → EffectConfig F → EffectConfig F
  set_burst_drop_length out v = change_direction out (Direction.set_burst_drop_length v)

  unfoldable pub set_duplicate_count : Bool → ℤ → EffectConfig F → EffectConfig F
  set_duplicate_count out v = change_direction out (Direction.set_duplicate_count v)

module _ {F : Type 0} ⦃f : Float F⦄ where
  unfoldable pub default_effects : EffectConfig F
  default_effects = record {
    outbound = Direction.default_config;
    inbound = Direction.default_config;
  }

  unfoldable pub set_burst_drop_rate : Bool → F → EffectConfig F → EffectConfig F
  set_burst_drop_rate out v = change_direction out (Direction.set_burst_drop_rate v)

  unfoldable pub set_drop_rate : Bool → F → EffectConfig F → EffectConfig F
  set_drop_rate out v = change_direction out (Direction.set_drop_rate v)

  unfoldable pub set_duplicate_rate : Bool → F → EffectConfig F → EffectConfig F
  set_duplicate_rate out v = change_direction out (Direction.set_duplicate_rate v)

-- A call of one of the setters, and the run of a list of calls.
pub data SetterCall (F : Type 0) : Type 0 where
  delay_ms delay_jitter_ms throttle_kbytes burst_length duplicate_copies : ℤ → SetterCall F
  burst_enabled : Bool → SetterCall F
  burst_rate packet_drop_rate packet_duplicate_rate : F → SetterCall F

module _ {F : Type 0} ⦃f : Float F⦄ where
  unfoldable pub call_setter : EffectConfig F → Bool × SetterCall F → EffectConfig F
  unfolding set_delay_ms set_delay_jitter_ms set_throttle_kbytes_per_sec set_burst_drop_length
      set_duplicate_count set_burst_drop_enabled set_burst_drop_rate set_drop_rate
      set_duplicate_rate
  call_setter c (out, SetterCall.delay_ms v) = set_delay_ms out v c
  call_setter c (out, SetterCall.delay_jitter_ms v) = set_delay_jitter_ms out v c
  call_setter c (out, throttle_kbytes v) = set_throttle_kbytes_per_sec out v c
  call_setter c (out, burst_length v) = set_burst_drop_length out v c
  call_setter c (out, duplicate_copies v) = set_duplicate_count out v c
  call_setter c (out, burst_enabled v) = set_burst_drop_enabled out v c
  call_setter c (out, burst_rate v) = set_burst_drop_rate out v c
  call_setter c (out, packet_drop_rate v) = set_drop_rate out v c
  call_setter c (out, packet_duplicate_rate v) = set_duplicate_rate out v c

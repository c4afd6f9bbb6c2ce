-- ===== src/Config/Bounds.antt =====
-- The ranges that the setters keep, the isolation of the directions, and the throttle revision.
use scrambler.Prelude.{
  ◌+◌, ◌%◌, ◌^◌, ◌≤◌, ◌<◌, ◌≡◌, ◌≢◌, ◌⊎◌, Bool, true, false, not, List, [], ◌∷◌, ℤ, pos, negsuc,
  clamp_bounds, All, arith,
}
use mathlib.Core.List.{foldl}
use scrambler.Rates.{Float, IsRate, IsOrdered, clamp_rate-IsRate}
use scrambler.Config.Direction
use scrambler.Config.Direction.{
  DirectionEffectConfig, DirectionEffectSnapshot, max_delay_jitter_ms, max_throttle_kbytes_per_sec,
  max_burst_drop_length, max_duplicate_copies,
}
use scrambler.Config.Effects
use scrambler.Config.Effects.{
  EffectConfig, SetterCall, call_setter, config_for_direction, default_effects,
}

-- The values of the C++ `int`, of 32 bits.
abbrev pub IsInt : ℤ → Type 0
IsInt (pos n) = n < 2 ^ 31
IsInt (negsuc n) = n < 2 ^ 31

-- The delay is the one setting with no upper bound of its own.
abbrev pub HasIntDelay : {F : Type 0} → Bool × SetterCall F → Type 0
HasIntDelay (out, SetterCall.delay_ms v) = IsInt v
HasIntDelay (out, _) = Unit {0}

module _ {F : Type 0} ⦃f : Float F⦄ where
  pub record IsValid (c : DirectionEffectConfig F) : Type 0 where
    pub delay_lt : c.delay_ms < 2 ^ 31
    pub jitter_le : c.delay_jitter_ms ≤ 1000
    pub throttle_le : c.throttle_kbytes_per_sec ≤ 10_240
    pub revision_lt : c.throttle_revision < 2 ^ 64
    pub burst_pos : 1 ≤ c.burst_drop_length
    pub burst_le : c.burst_drop_length ≤ 32
    pub copies_pos : 1 ≤ c.duplicate_count
    pub copies_le : c.duplicate_count ≤ 64
    pub burst_rate : IsRate c.burst_drop_rate
    pub drop_rate : IsRate c.drop_rate
    pub duplicate_rate : IsRate c.duplicate_rate

  pub default_config-IsValid : IsOrdered F → IsValid Direction.default_config
  unfolding Direction.default_config
  default_config-IsValid o = ground (arith, o.le-nought-one, o.le_numbers f.nought f.one)

  set_throttle-IsValid :
      (v : ℤ) (c : DirectionEffectConfig F)
      → IsValid c
      → IsValid (Direction.set_throttle_kbytes_per_sec v c)
  unfolding Direction.set_throttle_kbytes_per_sec
  set_throttle-IsValid v c h = ground (arith, clamp_bounds v 0 max_throttle_kbytes_per_sec)

  abbrev BothValid : EffectConfig F → Type 0
  BothValid c = IsValid c.outbound × IsValid c.inbound

  module _ (o : IsOrdered F) where
    direction_setter-IsValid :
        (call : SetterCall F) (out : Bool) (c : EffectConfig F)
        → HasIntDelay (out, call)
        → BothValid c
        → BothValid (call_setter c (out, call))
    unfolding call_setter Direction.set_delay_ms Direction.set_delay_jitter_ms
        Direction.set_burst_drop_enabled Direction.set_burst_drop_length
        Direction.set_duplicate_count Direction.set_burst_drop_rate Direction.set_drop_rate
        Direction.set_duplicate_rate
    direction_setter-IsValid (SetterCall.delay_ms (pos n)) out c fits h = ground arith
    direction_setter-IsValid (SetterCall.delay_ms (negsuc n)) out c fits h = ground arith
    direction_setter-IsValid (SetterCall.delay_jitter_ms v) out c fits h =
        ground (arith, clamp_bounds v 0 max_delay_jitter_ms)
    direction_setter-IsValid (SetterCall.throttle_kbytes v) true c fits h =
        (set_throttle-IsValid v c.outbound h.0, h.1)
    direction_setter-IsValid (SetterCall.throttle_kbytes v) false c fits h =
        (h.0, set_throttle-IsValid v c.inbound h.1)
    direction_setter-IsValid (SetterCall.burst_length v) out c fits h =
        ground (arith, clamp_bounds v 1 max_burst_drop_length)
    direction_setter-IsValid (SetterCall.duplicate_copies v) out c fits h =
        ground (arith, clamp_bounds v 1 max_duplicate_copies)
    direction_setter-IsValid (SetterCall.burst_enabled v) out c fits h = ground arith
    direction_setter-IsValid (SetterCall.burst_rate v) out c fits h =
        ground (arith, clamp_rate-IsRate o v)
    direction_setter-IsValid (SetterCall.packet_drop_rate v) out c fits h =
        ground (arith, clamp_rate-IsRate o v)
    direction_setter-IsValid (SetterCall.packet_duplicate_rate v) out c fits h =
        ground (arith, clamp_rate-IsRate o v)

    setters-IsValid :
        (c : EffectConfig F) (calls : List (Bool × SetterCall F))
        → All HasIntDelay calls
        → BothValid c
        → BothValid (foldl call_setter c calls)
    setters-IsValid c [] fits h = h
    setters-IsValid c ((out, call) ∷ calls) fits h =
        setters-IsValid (call_setter c (out, call)) calls fits.1
          (direction_setter-IsValid call out c fits.0 h)

  -- What an engine may rely on when it reads a snapshot.
  pub record IsValidSnapshot (s : DirectionEffectSnapshot F) : Type 0 where
    pub delay_lt : s.delay < 2 ^ 31
    pub jitter_le : s.delay_jitter_ms ≤ 1000
    pub throttle_le : s.throttle_bytes_per_second ≤ 10_485_760
    pub burst_pos : 1 ≤ s.burst_drop_length
    pub burst_le : s.burst_drop_length ≤ 32
    pub copies_pos : 1 ≤ s.duplicate_count
    pub copies_le : s.duplicate_count ≤ 64
    pub burst_rate : IsRate s.burst_drop_rate
    pub drop_rate : IsRate s.drop_rate
    pub duplicate_rate : IsRate s.duplicate_rate

  snapshot-IsValidSnapshot :
      (c : DirectionEffectConfig F) → IsValid c → IsValidSnapshot (Direction.snapshot c)
  unfolding Direction.snapshot
  snapshot-IsValidSnapshot c h = ground arith

  -- From the initial settings, after any calls of the setters in any order, on either direction and
  -- with any arguments (a delay being a value of `int`), the snapshot of each direction is in
  -- range: jitter at most 1000 ms, throttle at most 10 MB/s, burst length from 1 to 32, copies
  -- from 1 to 64, and each rate from 0 to 1 or NaN.
  pub setters-IsValidSnapshot :
      IsOrdered F
      → (calls : List (Bool × SetterCall F)) (is_outbound : Bool) → All HasIntDelay calls
      → IsValidSnapshot (Effects.snapshot (foldl call_setter default_effects calls) is_outbound)
  unfolding Effects.snapshot default_effects
  setters-IsValidSnapshot o calls true fits =
      let start = default_config-IsValid o in
      snapshot-IsValidSnapshot _ (setters-IsValid o default_effects calls fits (start, start)).0
  setters-IsValidSnapshot o calls false fits =
      let start = default_config-IsValid o in
      snapshot-IsValidSnapshot _ (setters-IsValid o default_effects calls fits (start, start)).1

  -- A setter call changes its own direction only, and there it does what it does to the other
  -- direction's settings when they are the same.
  call_setter_directions :
      (c d : EffectConfig F) (is_outbound : Bool) (call : SetterCall F)
      → config_for_direction c is_outbound ≡ config_for_direction d (not is_outbound)
      → (config_for_direction (call_setter c (is_outbound, call)) (not is_outbound)
          ≡ config_for_direction c (not is_outbound))
        × (config_for_direction (call_setter c (is_outbound, call)) is_outbound
            ≡ config_for_direction (call_setter d (not is_outbound, call)) (not is_outbound))
  unfolding call_setter
  call_setter_directions c d true (SetterCall.delay_ms v) h = ground arith
  call_setter_directions c d true _ h = ground arith
  call_setter_directions c d false (SetterCall.delay_ms v) h = ground arith
  call_setter_directions c d false _ h = ground arith

-- The throttle's revision moves exactly when the stored limit moves, so that an engine that
-- remembers the revision notices each change of the limit.
set_throttle_revision :
    {F : Type 0} (v : ℤ) (c : DirectionEffectConfig F)
    → let d = Direction.set_throttle_kbytes_per_sec v c in
      c.throttle_revision < 2 ^ 64
      → ((d.throttle_kbytes_per_sec ≡ c.throttle_kbytes_per_sec)
          × (d.throttle_revision ≡ c.throttle_revision))
        ⊎ ((d.throttle_kbytes_per_sec ≢ c.throttle_kbytes_per_sec)
            × (d.throttle_revision ≢ c.throttle_revision)
            × (d.throttle_revision ≡ (c.throttle_revision + 1) % 2 ^ 64))
unfolding Direction.set_throttle_kbytes_per_sec
set_throttle_revision v c h = ground arith

-- ===== src/Config/Tests.antt =====
-- Runs of the settings, and the theorems at concrete inputs.
use scrambler.Prelude.{◌≡◌, refl, Bool, true, some, none, List, [], ◌∷◌, pos, negsuc, arith}
use mathlib.Core.List.{foldl}
use scrambler.Samples.{Milli, milli_float, Milli-IsOrdered}
use scrambler.Config.Direction
use scrambler.Config.Direction.{DirectionEffectConfig}
use scrambler.Config.Effects
use scrambler.Config.Effects.{
  EffectConfig, SetterCall, call_setter, default_effects, config_for_direction,
}
use scrambler.Config.Bounds.{IsValidSnapshot, setters-IsValidSnapshot}

-- Every argument is out of range.
abbrev wild_calls : List (Bool × SetterCall Milli)
wild_calls =
    (true, SetterCall.delay_ms (negsuc 4))
    ∷ (true, SetterCall.delay_jitter_ms (pos 5000))
    ∷ (true, SetterCall.throttle_kbytes (pos 99_999))
    ∷ (true, SetterCall.burst_length (pos 0))
    ∷ (true, SetterCall.packet_drop_rate (some 1500))
    ∷ (true, SetterCall.packet_duplicate_rate none)
    ∷ []

clamped :
    let c = config_for_direction (foldl call_setter default_effects wild_calls) true in
    (c.delay_ms ≡ 0)
    × (c.delay_jitter_ms ≡ 1000)
    × (c.throttle_kbytes_per_sec ≡ 10_240)
    × (c.throttle_revision ≡ 1)
    × (c.burst_drop_length ≡ 1)
    × (c.drop_rate ≡ some 1000)
    × (c.duplicate_rate ≡ none)
unfolding call_setter default_effects Direction.default_config Direction.set_delay_ms
    Direction.set_delay_jitter_ms Direction.set_throttle_kbytes_per_sec
    Direction.set_burst_drop_length Direction.set_drop_rate Direction.set_duplicate_rate
    scrambler.Rates.clamp_rate
clamped = (refl, refl, refl, refl, refl, refl, refl)

setters-IsValidSnapshot_example :
    IsValidSnapshot (Effects.snapshot (foldl call_setter default_effects wild_calls) true)
setters-IsValidSnapshot_example =
    setters-IsValidSnapshot Milli-IsOrdered wild_calls true (omega arith)

-- ===== src/Engine/Transparent.antt =====
-- What the engine leaves alone: a packet when no effect is on, and the other direction.
use scrambler.Prelude.{ℕ, ◌≡◌, true, false, not, inl, inr, Bool-cases, [], ◌∷◌, arith}
use scrambler.PacketData.{OwnedPacket}
use scrambler.Rates.{Float, Random, should_apply_rate, should_drop}
use scrambler.Config.Direction.{DirectionEffectSnapshot}
use scrambler.Config.Effects.{EffectConfig, config_for_direction}
use scrambler.Engine.Emission.{no_emission, add_immediate, add_scheduled}
use scrambler.Engine.Direction.{
  DirectionPacketEffectEngine, reset_throttle_state_if_needed, should_drop_packet,
  resolve_copy_count, resolve_scheduled_delay, emit_packet, emit_packet_copies, emit_copies,
  process_snapshot,
}
use scrambler.Engine.Both
use scrambler.Engine.Both.{PacketEffectEngine, engine_for}

-- No effect is on.
pub record IsInactive {F : Type 0} ⦃f : Float F⦄ (s : DirectionEffectSnapshot F) : Type 0 where
  pub no_burst : s.burst_drop_enabled ≡ false
  pub no_drop : f.le s.drop_rate f.nought ≡ true
  pub no_duplicates : f.le s.duplicate_rate f.nought ≡ true
  pub no_delay : s.delay ≡ 0
  pub no_jitter : s.delay_jitter_ms ≡ 0
  pub no_throttle : s.throttle_bytes_per_second ≡ 0

module _ {A F G : Type 0} ⦃f : Float F⦄ ⦃r : Random F G⦄ where
  emit_inactive :
      (s : DirectionEffectSnapshot F) (e : DirectionPacketEffectEngine G) (packet : OwnedPacket A)
      (now : ℕ)
      → IsInactive s
      → emit_packet s e packet now ≡ (
        record { applied_effects = 0; immediate_packets = packet ∷ []; scheduled_packets = [] },
        e,
      )
  unfolding emit_packet resolve_copy_count resolve_scheduled_delay emit_packet_copies
      should_apply_rate emit_copies add_immediate add_scheduled
  emit_inactive s e packet now h = ground arith

  -- With no effect on, a packet goes out once, at once, unchanged and unmarked, and no random
  -- number is drawn.
  pub process_inactive :
      (s : DirectionEffectSnapshot F) (e : DirectionPacketEffectEngine G) (packet : OwnedPacket A)
      (now : ℕ)
      → IsInactive s
      → let (emission, e') = process_snapshot s e packet now in
        (emission
          ≡ record { applied_effects = 0; immediate_packets = packet ∷ []; scheduled_packets = [] })
        × (e'.rng ≡ e.rng)
  unfolding process_snapshot should_drop_packet should_drop reset_throttle_state_if_needed
  process_inactive s e packet now h =
      let t = should_drop_packet s (reset_throttle_state_if_needed s e) (no_emission {A = A}) in
      ground (arith, h, emit_inactive s t.1 packet now h)

  -- A packet's treatment depends on its own direction only, on that direction's settings and
  -- engine, and the other direction's engine is left as it was.
  process_directions :
      (effects effects' : EffectConfig F) (e e' : PacketEffectEngine G) (packet : OwnedPacket A)
      (now : ℕ)
      → let out = packet.metadata.is_outbound in
        let (emission, last) = Both.process effects e packet now in
        let (emission', last') = Both.process effects' e' packet now in
        config_for_direction effects out ≡ config_for_direction effects' out
        → engine_for e out ≡ engine_for e' out
        → (emission ≡ emission')
          × (engine_for last out ≡ engine_for last' out)
          × (engine_for last (not out) ≡ engine_for e (not out))
  unfolding Both.process
  process_directions effects effects' e e' packet now same same' =
      elim (Bool-cases packet.metadata.is_outbound) [
        | inl out ↦ ground arith
        | inr back ↦ ground arith
      ]

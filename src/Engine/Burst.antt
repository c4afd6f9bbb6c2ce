-- ===== src/Engine/Burst.antt =====
-- Burst loss: once a burst has begun, exactly the configured number of packets is lost.
use scrambler.Prelude.{
  ℕ, ◌+◌, ◌-◌, ◌≤◌, ◌<◌, ◌≡◌, refl, sym, ◌∙◌, true, inl, inr, Bool-cases, List, [], ◌∷◌, length,
  All, arith,
}
use scrambler.PacketData.{OwnedPacket}
use scrambler.Rates.{Float, Random, IsUniform}
use scrambler.Config.Direction.{DirectionEffectSnapshot}
use scrambler.Engine.Emission.{
  PacketEffectKind, PacketEffectEmission, no_emission, has_effect, mark, has_mark,
}
use scrambler.Engine.Direction.{
  DirectionPacketEffectEngine, reset_throttle_state_if_needed, should_drop_packet, process_snapshot,
}
use scrambler.Engine.Emitted.{emit_packet-IsEmission}
use scrambler.Engine.Run.{run, length-run}

-- Lost to a burst: marked so, and nothing goes out.
abbrev pub IsBurstLoss : {A : Type 0} → PacketEffectEmission A → Type 0
IsBurstLoss e =
    (has_effect e PacketEffectKind.drop ≡ true)
    × (has_effect e PacketEffectKind.burst_drop ≡ true)
    × (e.immediate_packets ≡ [])
    × (e.scheduled_packets ≡ [])

module _ {A F G : Type 0} ⦃f : Float F⦄ ⦃r : Random F G⦄ (s : DirectionEffectSnapshot F)
    (enabled : s.burst_drop_enabled ≡ true) where
  -- Inside a burst a packet is lost with no draw, and the burst has one packet less to go.
  process_burst :
      (e : DirectionPacketEffectEngine G) (packet : OwnedPacket A) (now : ℕ)
      → 0 < e.burst_packets_remaining
      → let (emission, e') = process_snapshot s e packet now in
        IsBurstLoss emission
        × (e'.burst_packets_remaining + 1 ≡ e.burst_packets_remaining)
        × (e'.rng ≡ e.rng)
  unfolding process_snapshot should_drop_packet reset_throttle_state_if_needed mark has_mark
  process_burst e packet now left = ground arith

  run_burst :
      (e : DirectionPacketEffectEngine G) (inputs : List (OwnedPacket A × ℕ))
      → length inputs ≤ e.burst_packets_remaining
      → let (emissions, e') = run s e inputs in
        All IsBurstLoss emissions
        × (e'.burst_packets_remaining + length inputs ≡ e.burst_packets_remaining)
        × (e'.rng ≡ e.rng)
  unfolding run
  run_burst e [] fits = (tt, omega arith, refl)
  run_burst e ((packet, now) ∷ inputs) fits =
      let (lost, fewer, same) = process_burst e packet now (omega arith) in
      let (rest, left, kept) = run_burst (process_snapshot s e packet now).1 inputs (omega arith) in
      ((lost, rest), omega arith, kept ∙ same)

  -- Outside a burst a drop is the first of a burst.
  drop_test_start :
      (e : DirectionPacketEffectEngine G)
      → e.burst_packets_remaining ≡ 0
      → let (dropped, e', emission) =
          should_drop_packet s (reset_throttle_state_if_needed s e) (no_emission {A = A}) in
        dropped ≡ true
        → IsBurstLoss emission × (e'.burst_packets_remaining ≡ s.burst_drop_length - 1)
  unfolding should_drop_packet reset_throttle_state_if_needed mark has_mark
  drop_test_start e idle = ground arith

  process_burst_start :
      IsUniform F G
      → (e : DirectionPacketEffectEngine G) (packet : OwnedPacket A) (now : ℕ)
      → e.burst_packets_remaining ≡ 0
      → let (emission, e') = process_snapshot s e packet now in
        has_effect emission PacketEffectKind.drop ≡ true
        → IsBurstLoss emission × (e'.burst_packets_remaining ≡ s.burst_drop_length - 1)
  unfolding process_snapshot
  process_burst_start u e packet now idle =
      let t = should_drop_packet s (reset_throttle_state_if_needed s e) (no_emission {A = A}) in
      elim (Bool-cases t.0) [
        | inl gone ↦ rw gone λ _. drop_test_start e idle gone
        | inr stays ↦
            rw stays λ lost. cc (sym (emit_packet-IsEmission u s t.1 packet now).no_drop ∙ lost)
      ]

  -- Let bursts be enabled and none be under way. If a packet is dropped, it and all the packets
  -- up to the configured burst length are lost to the burst, whatever the generator would say
  -- (no number is drawn for them); then no packet of the burst is left to go.
  pub burst_length_lem :
      IsUniform F G
      → (e : DirectionPacketEffectEngine G) (first : OwnedPacket A) (now : ℕ)
        (inputs : List (OwnedPacket A × ℕ))
      → e.burst_packets_remaining ≡ 0
      → has_effect (process_snapshot s e first now).0 PacketEffectKind.drop ≡ true
      → length inputs + 1 ≡ s.burst_drop_length
      → let e₁ = (process_snapshot s e first now).1 in
        let (emissions, e₂) = run s e ((first, now) ∷ inputs) in
        All IsBurstLoss emissions
        × (length emissions ≡ s.burst_drop_length)
        × (e₂.burst_packets_remaining ≡ 0)
        × (e₂.rng ≡ e₁.rng)
  unfolding run
  burst_length_lem u e first now inputs idle lost exact =
      let (begun, set) = process_burst_start u e first now idle lost in
      let e₁ = (process_snapshot s e first now).1 in
      let (rest, left, kept) = run_burst e₁ inputs (omega arith) in
      ((begun, rest), omega (arith, length-run s e₁ inputs), omega arith, kept)

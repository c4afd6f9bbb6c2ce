-- ===== src/Engine/Tests.antt =====
-- Runs of the engine, and the theorems at concrete inputs.
use scrambler.Prelude.{
  ◌==◌, ltb, ℕ, ◌+◌, ◌*◌, ◌≤◌, ◌<◌, ◌≡◌, refl, ◌⊎◌, true, false, not, ◌&&◌, some, List, [], ◌∷◌,
  length, All, if◌then◌else◌, arith,
}
use scrambler.PacketData.{OwnedPacket}
use scrambler.Rates.{should_apply_rate}
use scrambler.Samples.{Milli, milli_float, counting_random, counting-IsUniform, sample_packet}
use scrambler.Config.Direction.{DirectionEffectSnapshot}
use scrambler.Engine.Emission.{
  PacketEffectKind, has_effect, mark, has_mark, add_immediate, add_scheduled, total_emitted_count,
}
use scrambler.Engine.Direction.{
  DirectionPacketEffectEngine, process_snapshot, transmission_time_for_packet, should_drop_packet,
  reset_throttle_state_if_needed, emit_packet, resolve_copy_count, resolve_scheduled_delay,
  emit_packet_copies, emit_copies,
}
use scrambler.Engine.Both.{PacketEffectEngine}
use scrambler.Engine.Emitted.{IsHeldBack}
use scrambler.Engine.Process.{process_conserves, process_marks, process_timely}
use scrambler.Engine.Run.{run, total_bytes}
use scrambler.Engine.Throttle.{throttle_rate}
use scrambler.Engine.Burst.{IsBurstLoss, burst_length_lem}
use scrambler.Engine.Transparent.{process_inactive}

-- 20 ms delay, 5 ms jitter, 1000 bytes a second, every packet duplicated twice.
abbrev busy : DirectionEffectSnapshot Milli
busy = record {
  delay = 20;
  delay_jitter_ms = 5;
  throttle_bytes_per_second = 1000;
  throttle_revision = 1;
  burst_drop_enabled = false;
  burst_drop_rate = some 0;
  burst_drop_length = 3;
  drop_rate = some 0;
  duplicate_rate = some 1000;
  duplicate_count = 2;
}

abbrev quiet : DirectionEffectSnapshot Milli
quiet = record busy {
  delay = 0;
  delay_jitter_ms = 0;
  throttle_bytes_per_second = 0;
  duplicate_rate = some 0;
}

-- Bursts of three, certain to start.
abbrev bursty : DirectionEffectSnapshot Milli
bursty = record quiet { burst_drop_enabled = true; burst_drop_rate = some 1000 }

abbrev fresh : DirectionPacketEffectEngine ℕ
fresh = record {
  rng = 9;
  burst_packets_remaining = 0;
  next_throttle_release_at = 0;
  last_throttle_revision = 1;
}

-- Three copies, 3 ms of transmission apart, from 1 s + 20 ms + 3 ms of jitter on.
busy_run :
    let (emission, e') = process_snapshot busy fresh sample_packet 1_000_000_000 in
    (emission.immediate_packets ≡ [])
    × (emission.scheduled_packets
        ≡ record { packet = sample_packet; release_at = 1_023_000_000 }
          ∷ record { packet = sample_packet; release_at = 1_026_000_000 }
          ∷ record { packet = sample_packet; release_at = 1_029_000_000 }
          ∷ [])
    × (emission.applied_effects ≡ 46)
    × (e'.next_throttle_release_at ≡ 1_032_000_000)
unfolding process_snapshot should_drop_packet scrambler.Rates.should_drop
    reset_throttle_state_if_needed emit_packet resolve_copy_count resolve_scheduled_delay
    emit_packet_copies emit_copies add_immediate add_scheduled transmission_time_for_packet mark
busy_run = (refl, refl, refl, refl)

process_conserves_example :
    let emission = (process_snapshot busy fresh sample_packet 1000).0 in
    (total_emitted_count emission ≡ (
      if has_effect emission PacketEffectKind.drop
      then 0
      else if has_effect emission PacketEffectKind.duplicate
      then 1 + 2
      else 1))
    × All (λ p. p ≡ sample_packet) emission.immediate_packets
    × All
        (λ q.
          (q.packet ≡ sample_packet)
          × (1000 < q.release_at)
          × (1000 + 20 * 1_000_000 ≤ q.release_at))
        emission.scheduled_packets
process_conserves_example = process_conserves counting-IsUniform busy fresh sample_packet 1000

process_marks_example :
    let emission = (process_snapshot busy fresh sample_packet 1000).0 in
    let passed = not (has_effect emission PacketEffectKind.drop) in
    (has_effect emission PacketEffectKind.drop ≡ (total_emitted_count emission == 0))
    × (has_effect emission PacketEffectKind.burst_drop ≡ not passed && false)
    × (has_effect emission PacketEffectKind.duplicate ≡ ltb 1 (total_emitted_count emission))
    × (has_effect emission PacketEffectKind.delay ≡ passed && true)
    × (has_effect emission PacketEffectKind.delay_jitter ≡ passed && true)
    × ((drawn_delay : ℕ) × (20 ≤ drawn_delay)
        × (drawn_delay ≤ 20 + 5)
        × IsHeldBack busy 1000 drawn_delay emission)
process_marks_example = process_marks counting-IsUniform busy fresh sample_packet 1000

process_timely_example :
    let emission = (process_snapshot busy fresh sample_packet 1000).0 in
    (0 < 20 → emission.immediate_packets ≡ [])
    × All (λ q. 1000 + 20 * 1_000_000 ≤ q.release_at) emission.scheduled_packets
    × (◌≡◌ {A = ℕ} 1000 0
        → All (λ q. q.release_at ≤ 1000 + (20 + 5) * 1_000_000) emission.scheduled_packets)
process_timely_example = process_timely counting-IsUniform busy fresh sample_packet 1000

throttle_rate_example :
    let (emissions, e') = run busy fresh ((sample_packet, 1000) ∷ (sample_packet, 1000) ∷ []) in
    let emission = (process_snapshot busy e' sample_packet 1000).0 in
    let start = 0 * 1000 in
    let earlier = total_bytes emissions * 1_000_000_000 in
    ((emission.immediate_packets ≡ []) ⊎ (start + earlier ≤ 1000 * 1000))
    × All (λ q. start + earlier ≤ q.release_at * 1000) emission.scheduled_packets
throttle_rate_example =
    throttle_rate counting-IsUniform busy (omega arith) (omega arith) fresh
      ((sample_packet, 1000) ∷ (sample_packet, 1000) ∷ []) sample_packet 1000 refl (omega arith)

first_lost :
    has_effect (process_snapshot bursty fresh sample_packet 0).0 PacketEffectKind.drop ≡ true
unfolding process_snapshot should_drop_packet should_apply_rate reset_throttle_state_if_needed mark
    has_mark
first_lost = refl

burst_length_lem_example :
    let inputs : List (OwnedPacket ℕ × ℕ) = (sample_packet, 1) ∷ (sample_packet, 2) ∷ [] in
    let e₁ = (process_snapshot bursty fresh sample_packet 0).1 in
    let (emissions, e₂) = run bursty fresh ((sample_packet, 0) ∷ inputs) in
    All IsBurstLoss emissions
    × (length emissions ≡ 3)
    × (e₂.burst_packets_remaining ≡ 0)
    × (e₂.rng ≡ e₁.rng)
burst_length_lem_example =
    burst_length_lem bursty refl counting-IsUniform fresh sample_packet 0
      ((sample_packet, 1) ∷ (sample_packet, 2) ∷ []) refl first_lost refl

process_inactive_example :
    let (emission, e') = process_snapshot quiet fresh sample_packet 5 in
    (emission ≡ record {
      applied_effects = 0;
      immediate_packets = sample_packet ∷ [];
      scheduled_packets = [];
    })
    × (e'.rng ≡ 9)
process_inactive_example = process_inactive quiet fresh sample_packet 5 (ground arith)

abbrev both : PacketEffectEngine ℕ
both = record { outbound = fresh; inbound = fresh }

low_applies : (should_apply_rate {F = Milli} {G = ℕ} (some 100) 99).0 ≡ true
unfolding should_apply_rate
low_applies = refl

-- ===== src/Engine/Direction.antt =====
-- `DirectionPacketEffectEngine`, function by function. A method takes the engine and returns the
-- engine after it. Time points and durations are counts of nanoseconds; the arithmetic of
-- `TransmissionTimeForPacket` wraps at 64 bits.
use scrambler.Prelude.{
  ℕ, zero, suc, ◌+◌, ◌-◌, ◌*◌, ◌/◌, ◌%◌, ◌^◌, max, Bool, true, false, ◌||◌, ◌==◌, ltb, leb,
  if◌then◌else◌,
}
use scrambler.PacketData.{OwnedPacket}
use scrambler.Rates.{Float, Random, should_apply_rate, should_drop}
use scrambler.Config.Direction.{DirectionEffectConfig, DirectionEffectSnapshot, snapshot}
use scrambler.Engine.Emission.{
  PacketEffectKind, PacketEffectEmission, no_emission, add_effect, add_immediate, add_scheduled,
}

pub record DirectionPacketEffectEngine (G : Type 0) : Type 0 where
  pub rng : G
  pub burst_packets_remaining : ℕ
  pub next_throttle_release_at : ℕ
  pub last_throttle_revision : ℕ

-- The constructor; `seed` is the seeded generator.
unfoldable pub new_engine : {G : Type 0} → G → DirectionPacketEffectEngine G
new_engine seed = record {
  rng = seed;
  burst_packets_remaining = 0;
  next_throttle_release_at = 0;
  last_throttle_revision = 0;
}

unfoldable pub transmission_time_for_packet : ℕ → ℕ → ℕ
transmission_time_for_packet packet_length throttle_bytes_per_second =
    if packet_length == 0 || throttle_bytes_per_second == 0
    then 0
    else max
        ((packet_length * 1_000_000_000 + throttle_bytes_per_second + (2 ^ 64 - 1))
          % 2 ^ 64
          / throttle_bytes_per_second)
        1

unfoldable pub reset_throttle_state_if_needed :
    {F G : Type 0}
    → DirectionEffectSnapshot F
    → DirectionPacketEffectEngine G
    → DirectionPacketEffectEngine G
reset_throttle_state_if_needed s e =
    if s.throttle_revision == e.last_throttle_revision
    then e
    else record e { next_throttle_release_at = 0; last_throttle_revision = s.throttle_revision }

module _ {A F G : Type 0} ⦃f : Float F⦄ ⦃r : Random F G⦄ where
  unfoldable pub should_drop_packet :
      DirectionEffectSnapshot F
      → DirectionPacketEffectEngine G
      → PacketEffectEmission A
      → Bool × DirectionPacketEffectEngine G × PacketEffectEmission A
  should_drop_packet s e emission =
      if s.burst_drop_enabled
      then (if ltb 0 e.burst_packets_remaining
          then (
            true,
            record e { burst_packets_remaining = e.burst_packets_remaining - 1 },
            add_effect PacketEffectKind.burst_drop (add_effect PacketEffectKind.drop emission),
          )
          else let (hit, rng) = should_apply_rate s.burst_drop_rate e.rng in
            if hit
            then (
              true,
              record e { rng = rng; burst_packets_remaining = s.burst_drop_length - 1 },
              add_effect PacketEffectKind.burst_drop (add_effect PacketEffectKind.drop emission),
            )
            else (false, record e { rng = rng }, emission))
      else let (hit, rng) = should_drop s.drop_rate e.rng in
        (
          hit,
          record e { rng = rng; burst_packets_remaining = 0 },
          if hit then add_effect PacketEffectKind.drop emission else emission,
        )

  -- The delay in milliseconds.
  unfoldable pub resolve_scheduled_delay :
      DirectionEffectSnapshot F
      → DirectionPacketEffectEngine G
      → PacketEffectEmission A
      → ℕ × DirectionPacketEffectEngine G × PacketEffectEmission A
  resolve_scheduled_delay s e emission =
      let delayed =
        if ltb 0 s.delay then add_effect PacketEffectKind.delay emission else emission in
      if ltb 0 s.delay_jitter_ms
      then (let (jitter_ms, rng) = r.uniform_int s.delay_jitter_ms e.rng in
          (
            s.delay + jitter_ms,
            record e { rng = rng },
            add_effect PacketEffectKind.delay_jitter delayed,
          ))
      else (s.delay, e, delayed)

-- The variables of the loop of `EmitPacketCopies`.
pub record Copies (A : Type 0) : Type 0 where
  pub throttle_release_at : ℕ
  pub applied_throttle : Bool
  pub emission : PacketEffectEmission A

module _ {A : Type 0} (packet : OwnedPacket A) (now : ℕ) where
  abbrev pub place : ℕ → PacketEffectEmission A → PacketEffectEmission A
  place release_at emission =
      if leb release_at now
      then add_immediate packet emission
      else add_scheduled packet release_at emission

  module _ (has_throttle : Bool) (base_release_at transmission_time : ℕ) where
    -- One round of the loop.
    unfoldable pub emit_copy : Copies A → Copies A
    emit_copy c =
        if has_throttle
        then (let throttled_release_at = max base_release_at c.throttle_release_at in
            record c {
              throttle_release_at = throttled_release_at + transmission_time;
              applied_throttle = c.applied_throttle || ltb base_release_at throttled_release_at;
              emission = place throttled_release_at c.emission;
            })
        else record c { emission = place base_release_at c.emission }

    -- The loop, with the number of copies to go.
    unfoldable pub emit_copies : ℕ → Copies A → Copies A
    unfolding emit_copy
    emit_copies zero c = c
    emit_copies (suc left) c = emit_copies left (emit_copy c)

unfoldable pub emit_packet_copies :
    {A G : Type 0}
    → OwnedPacket A
    → (total_copy_count now scheduled_delay throttle_bytes_per_second : ℕ)
    → DirectionPacketEffectEngine G
    → PacketEffectEmission A
    → PacketEffectEmission A × DirectionPacketEffectEngine G
emit_packet_copies packet total_copy_count now scheduled_delay throttle_bytes_per_second e
      emission =
    let has_throttle = ltb 0 throttle_bytes_per_second in
    let base_release_at = now + scheduled_delay * 1_000_000 in
    let start = if ltb e.next_throttle_release_at now then now else e.next_throttle_release_at in
    let transmission_time = transmission_time_for_packet packet.size throttle_bytes_per_second in
    let done =
      emit_copies packet now has_throttle base_release_at transmission_time total_copy_count
        (record { throttle_release_at = start; applied_throttle = false; emission = emission }) in
    if has_throttle
    then (
      if done.applied_throttle
          then add_effect PacketEffectKind.bandwidth_throttle done.emission
          else done.emission,
      record e { next_throttle_release_at = done.throttle_release_at },
    )
    else (done.emission, e)

module _ {A F G : Type 0} ⦃f : Float F⦄ ⦃r : Random F G⦄ where
  -- How many copies go out of a packet that is not dropped, and the engine after the draw.
  unfoldable pub resolve_copy_count :
      DirectionEffectSnapshot F
      → DirectionPacketEffectEngine G
      → PacketEffectEmission A
      → ℕ × DirectionPacketEffectEngine G × PacketEffectEmission A
  resolve_copy_count s e emission =
      if ltb 0 s.duplicate_count
      then (let (hit, rng) = should_apply_rate s.duplicate_rate e.rng in
          if hit
          then (
            1 + s.duplicate_count,
            record e { rng = rng },
            add_effect PacketEffectKind.duplicate emission,
          )
          else (1, record e { rng = rng }, emission))
      else (1, e, emission)

  -- What follows the drop test.
  unfoldable pub emit_packet :
      DirectionEffectSnapshot F
      → DirectionPacketEffectEngine G
      → OwnedPacket A
      → ℕ
      → PacketEffectEmission A × DirectionPacketEffectEngine G
  emit_packet s e packet now =
      let (total_copy_count, counted, marked) = resolve_copy_count s e no_emission in
      let (scheduled_delay, delayed, labelled) = resolve_scheduled_delay s counted marked in
      emit_packet_copies packet total_copy_count now scheduled_delay s.throttle_bytes_per_second
        delayed labelled

  -- `Process`, for a snapshot.
  unfoldable pub process_snapshot :
      DirectionEffectSnapshot F
      → DirectionPacketEffectEngine G
      → OwnedPacket A
      → ℕ
      → PacketEffectEmission A × DirectionPacketEffectEngine G
  process_snapshot s e packet now =
      let (dropped, tested, emission) =
        should_drop_packet s (reset_throttle_state_if_needed s e) no_emission in
      if dropped then (emission, tested) else emit_packet s tested packet now

  unfoldable pub process :
      DirectionEffectConfig F
      → DirectionPacketEffectEngine G
      → OwnedPacket A
      → ℕ
      → PacketEffectEmission A × DirectionPacketEffectEngine G
  process config e packet now = process_snapshot (snapshot config) e packet now

-- ===== src/Engine/Schedule.antt =====
-- `EmitPacketCopies` against a list of release times: an arithmetic progression that starts at
-- the base time, or at the throttle's gate if that is later, with the transmission time as step.
use mathlib.Core.List.{append-nil, append_assoc}
use scrambler.Prelude.{
  ℕ, zero, suc, ◌+◌, ◌*◌, ◌<◌, ◌≡◌, refl, sym, max, true, false, ◌||◌, ◌&&◌, List, [], ◌∷◌, ◌++◌,
  map, ltb, leb, if◌then◌else◌, Bool-cases, inl, inr, replicate, arith,
}
use scrambler.PacketData.{OwnedPacket, ScheduledPacket}
use scrambler.Engine.Emission.{
  PacketEffectKind, PacketEffectEmission, add_immediate, add_scheduled, mark,
}
use scrambler.Engine.Direction.{
  DirectionPacketEffectEngine, Copies, place, emit_copy, emit_copies, emit_packet_copies,
  transmission_time_for_packet,
}
use scrambler.Engine.Times.{progression, on_time, late, any_above, release_times}

module _ {A : Type 0} (packet : OwnedPacket A) where
  abbrev pub scheduled_at : ℕ → ScheduledPacket A
  scheduled_at t = record { packet = packet; release_at = t }

  -- `e'` is `e` with a copy of the packet for each time, sent at once if the time has come.
  pub record Placed (now : ℕ) (times : List ℕ) (e e' : PacketEffectEmission A) : Type 0 where
    pub same_mask : e'.applied_effects ≡ e.applied_effects
    pub at_once : e'.immediate_packets ≡ e.immediate_packets ++ replicate (on_time now times) packet
    pub later : e'.scheduled_packets ≡ e.scheduled_packets ++ map scheduled_at (late now times)

  Placed-nil : (now : ℕ) (e : PacketEffectEmission A) → Placed now [] e e
  Placed-nil now e = record {
    same_mask = refl;
    at_once = sym (append-nil e.immediate_packets);
    later = sym (append-nil e.scheduled_packets);
  }

  Placed-cons :
      (now t : ℕ) (ts : List ℕ) (e e' : PacketEffectEmission A)
      → Placed now ts (place packet now t e) e'
      → Placed now (t ∷ ts) e e'
  unfolding add_immediate add_scheduled
  Placed-cons now t ts e e' p = elim (Bool-cases (leb t now)) [
    | inl due ↦
        let q : Placed now ts (add_immediate packet e) e' = rw due at p in
        record {
          same_mask = q.same_mask;
          at_once = rw (due, q.at_once) (append_assoc e.immediate_packets _ _);
          later = rw due q.later;
        }
    | inr wait ↦
        let q : Placed now ts (add_scheduled packet t e) e' = rw wait at p in
        record {
          same_mask = q.same_mask;
          at_once = rw wait q.at_once;
          later = rw (wait, q.later) (append_assoc e.scheduled_packets _ _);
        }
  ]

  -- Without a throttle every copy has the base time, and nothing else changes.
  emit_copies_plain :
      (now base tx n : ℕ) (c : Copies A)
      → Placed now (replicate n base) c.emission (emit_copies packet now false base tx n c).emission
  unfolding emit_copies
  emit_copies_plain now base tx zero c = Placed-nil now c.emission
  emit_copies_plain now base tx (suc n) c =
      Placed-cons now base _ c.emission _
        (emit_copies_plain now base tx n (emit_copy packet now false base tx c))

  -- With a throttle the times start at the gate and leave room for each transmission.
  record Throttled (now base tx n first : ℕ) (c c' : Copies A) : Type 0 where
    placed : Placed now (progression first tx n) c.emission c'.emission
    applied : c'.applied_throttle ≡ c.applied_throttle || any_above base (progression first tx n)

  emit_copies-Throttled :
      (now base tx n first : ℕ) (c : Copies A)
      → max base c.throttle_release_at ≡ first
      → Throttled now base tx n first c (emit_copies packet now true base tx n c)
  unfolding emit_copies
  emit_copies-Throttled now base tx zero first c h = record {
    placed = Placed-nil now c.emission;
    applied = ground arith;
  }
  emit_copies-Throttled now base tx (suc n) first c h =
      let next = emit_copy packet now true base tx c in
      let rest = emit_copies-Throttled now base tx n (first + tx) next (omega arith) in
      record {
        placed = rw (← h) (
            Placed-cons now (max base c.throttle_release_at) _ c.emission _
              (rw (← h) at rest.placed));
        applied = ground (arith, rest.applied);
      }

  -- The gate then stands behind the last transmission.
  emit_copies_gate :
      (now base tx n : ℕ) (c : Copies A)
      → (emit_copies packet now true base tx (suc n) c).throttle_release_at
        ≡ max base c.throttle_release_at + suc n * tx
  unfolding emit_copies
  emit_copies_gate now base tx zero c = omega arith
  emit_copies_gate now base tx (suc n) c =
      omega (arith, emit_copies_gate now base tx n (emit_copy packet now true base tx c))

module _ {A G : Type 0} (packet : OwnedPacket A) (count now scheduled_delay throttle : ℕ) where
  pub record Emitted (e : DirectionPacketEffectEngine G)
      (emission emission' : PacketEffectEmission A) (e' : DirectionPacketEffectEngine G)
      : Type 0 where
    pub at_once :
        emission'.immediate_packets
        ≡ emission.immediate_packets
          ++ replicate
              (on_time now (
                release_times packet.size now scheduled_delay throttle e.next_throttle_release_at
                  count))
              packet
    pub later :
        emission'.scheduled_packets
        ≡ emission.scheduled_packets
          ++ map (scheduled_at packet) (
              late now (
                release_times packet.size now scheduled_delay throttle e.next_throttle_release_at
                  count))
    pub effects : emission'.applied_effects ≡ (
        if ltb 0 throttle
          && any_above (now + scheduled_delay * 1_000_000) (
              release_times packet.size now scheduled_delay throttle e.next_throttle_release_at
                count)
        then mark emission.applied_effects PacketEffectKind.bandwidth_throttle
        else emission.applied_effects)
    pub gate : e'.next_throttle_release_at ≡ (
        if ltb 0 throttle
        then max (now + scheduled_delay * 1_000_000) e.next_throttle_release_at
          + count * transmission_time_for_packet packet.size throttle
        else e.next_throttle_release_at)
    pub same_rng : e'.rng ≡ e.rng
    pub same_burst : e'.burst_packets_remaining ≡ e.burst_packets_remaining
    pub same_revision : e'.last_throttle_revision ≡ e.last_throttle_revision

emit_packet_copies-suc :
    {A G : Type 0} (packet : OwnedPacket A) (n now scheduled_delay throttle : ℕ)
    (e : DirectionPacketEffectEngine G) (emission : PacketEffectEmission A)
    → Emitted packet
        (suc n)
        now
        scheduled_delay
        throttle
        e
        emission
        (emit_packet_copies packet (suc n) now scheduled_delay throttle e emission).0
        (emit_packet_copies packet (suc n) now scheduled_delay throttle e emission).1
unfolding emit_packet_copies release_times
emit_packet_copies-suc {A} packet n now scheduled_delay throttle e emission =
    let base = now + scheduled_delay * 1_000_000 in
    let tx = transmission_time_for_packet packet.size throttle in
    let start = if ltb e.next_throttle_release_at now then now else e.next_throttle_release_at in
    let c : Copies A = record {
      throttle_release_at = start;
      applied_throttle = false;
      emission = emission;
    } in
    let same_start : max base start ≡ max base e.next_throttle_release_at = ground arith in
    elim (Bool-cases (ltb 0 throttle)) [
      | inl limited ↦
          let all =
            emit_copies-Throttled packet now base tx (suc n) (max base e.next_throttle_release_at) c
              same_start in
          let gate = emit_copies_gate packet now base tx n c in
          record {
            at_once = ground (arith, all.placed.at_once);
            later = ground (arith, all.placed.later);
            effects = ground (arith, all.placed.same_mask, all.applied);
            gate = ground (arith, gate, same_start);
            same_rng = ground arith;
            same_burst = ground arith;
            same_revision = ground arith;
          }
      | inr free ↦
          let all = emit_copies_plain packet now base tx (suc n) c in
          record {
            at_once = ground (arith, all.at_once);
            later = ground (arith, all.later);
            effects = ground (arith, all.same_mask);
            gate = ground arith;
            same_rng = ground arith;
            same_burst = ground arith;
            same_revision = ground arith;
          }
    ]

-- The whole of `EmitPacketCopies`, for any positive number of copies.
pub emit_packet_copies_lem :
    {A G : Type 0} (packet : OwnedPacket A) (count now scheduled_delay throttle : ℕ)
    (e : DirectionPacketEffectEngine G) (emission : PacketEffectEmission A)
    → 0 < count
    → Emitted packet count now scheduled_delay throttle e emission
        (emit_packet_copies packet count now scheduled_delay throttle e emission).0
        (emit_packet_copies packet count now scheduled_delay throttle e emission).1
emit_packet_copies_lem packet zero now scheduled_delay throttle e emission h = elim h [ ]
emit_packet_copies_lem packet (suc n) now scheduled_delay throttle e emission h =
    emit_packet_copies-suc packet n now scheduled_delay throttle e emission

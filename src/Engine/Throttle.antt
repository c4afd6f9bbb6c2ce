-- ===== src/Engine/Throttle.antt =====
-- The bandwidth throttle: the gate moves on by the time that the emitted bytes take.
use native.Mathlib.Nat.{mul-le-mul, le_refl, le_trans}
use scrambler.Prelude.{
  ℕ, zero, suc, ◌+◌, ◌*◌, ◌≤◌, ◌<◌, ◌≡◌, refl, sym, ◌∙◌, ◌≢◌, true, ◌⊎◌, List, [], ◌∷◌, ltb,
  Bool-cases, inl, inr, All, All-weaken, ◌==◌, ==_true, arith,
}
use scrambler.PacketData.{OwnedPacket}
use scrambler.Rates.{Float, Random, IsUniform}
use scrambler.Config.Direction.{DirectionEffectSnapshot}
use scrambler.Engine.Emission.{no_emission, total_emitted_count}
use scrambler.Engine.Direction.{
  DirectionPacketEffectEngine, transmission_time_for_packet, reset_throttle_state_if_needed,
  should_drop_packet, emit_packet, process_snapshot,
}
use scrambler.Engine.Schedule.{emit_packet_copies_lem}
use scrambler.Engine.Emitted.{total_lem}
use scrambler.Engine.Process.{process_conserves, process_cases}
use scrambler.Engine.Run.{run, emission_bytes, total_bytes, packet_bytes_same, scheduled_bytes_same}
use scrambler.Engine.Drawn.{Drawn, drawn, IsDrawn, drawn-IsDrawn}

-- For a packet of at most the MTU, at any rate that the settings allow, nothing wraps: the
-- transmission time is the number of nanoseconds that the bytes take, rounded up.
transmission_time_ceiling :
    (size throttle : ℕ)
    → 0 < size
    → size ≤ 1500
    → 0 < throttle
    → throttle ≤ 10_485_760
    → let time = transmission_time_for_packet size throttle in
      (size * 1_000_000_000 ≤ time * throttle) × (time * throttle < size * 1_000_000_000 + throttle)
unfolding transmission_time_for_packet
transmission_time_ceiling size throttle a b c d = grind arith

transmission_time-ge :
    (size throttle : ℕ)
    → size ≤ 1500
    → 0 < throttle
    → throttle ≤ 10_485_760
    → size * 1_000_000_000 ≤ transmission_time_for_packet size throttle * throttle
transmission_time-ge zero throttle b c d = omega arith
transmission_time-ge (suc size) throttle b c d =
    (transmission_time_ceiling (suc size) throttle (omega arith) b c d).0

scaled :
    (gate gate' count size time throttle : ℕ)
    → gate + count * time ≤ gate'
    → size * 1_000_000_000 ≤ time * throttle
    → gate * throttle + count * size * 1_000_000_000 ≤ gate' * throttle
scaled gate gate' count size time throttle h k =
    omega (arith, mul-le-mul h (le_refl throttle), mul-le-mul (le_refl count) k)

module _ (A : Type 0) {F G : Type 0} ⦃f : Float F⦄ ⦃r : Random F G⦄ where
  should_drop_packet_gate :
      (s : DirectionEffectSnapshot F) (e : DirectionPacketEffectEngine G)
      → let (dropped, e', emission) = should_drop_packet s e (no_emission {A = A}) in
        (e'.next_throttle_release_at ≡ e.next_throttle_release_at)
        × (e'.last_throttle_revision ≡ e.last_throttle_revision)
        × (emission.immediate_packets ≡ [])
        × (emission.scheduled_packets ≡ [])
  unfolding should_drop_packet
  should_drop_packet_gate s e = ground arith

module _ {A F G : Type 0} ⦃f : Float F⦄ ⦃r : Random F G⦄ (u : IsUniform F G)
    (s : DirectionEffectSnapshot F) where
  emit_packet_gate :
      (e : DirectionPacketEffectEngine G) (packet : OwnedPacket A) (now : ℕ)
      → let (emission, e') = emit_packet s e packet now in
        (ltb 0 s.throttle_bytes_per_second ≡ true
          → e.next_throttle_release_at
              + total_emitted_count emission
                * transmission_time_for_packet packet.size s.throttle_bytes_per_second
            ≤ e'.next_throttle_release_at)
        × (e'.last_throttle_revision ≡ e.last_throttle_revision)
  unfolding emit_packet drawn
  emit_packet_gate e packet now =
      let d : Drawn A G = drawn s e in
      let i : IsDrawn s e d = drawn-IsDrawn u s e in
      let done =
        emit_packet_copies_lem packet d.count now d.delay s.throttle_bytes_per_second d.engine
          d.labelled (ground (arith, i.count_eq)) in
      let total = total_lem s e packet now d i _ _ done in
      (
        λ limited. rw total (ground (arith, done.gate, i.same_gate)),
        done.same_revision ∙ i.same_revision,
      )

  -- The gate after `Process` leaves room for every copy that it emitted.
  process_gate :
      (e : DirectionPacketEffectEngine G) (packet : OwnedPacket A) (now : ℕ)
      → s.throttle_revision ≡ e.last_throttle_revision
      → 0 < s.throttle_bytes_per_second
      → let (emission, e') = process_snapshot s e packet now in
        (e.next_throttle_release_at
            + total_emitted_count emission
              * transmission_time_for_packet packet.size s.throttle_bytes_per_second
          ≤ e'.next_throttle_release_at)
        × (e'.last_throttle_revision ≡ e.last_throttle_revision)
  unfolding process_snapshot reset_throttle_state_if_needed
  process_gate e packet now same limited =
      let t = should_drop_packet s e (no_emission {A = A}) in
      let test = should_drop_packet_gate A s e in
      let out = emit_packet_gate t.1 packet now in
      let kept : reset_throttle_state_if_needed s e ≡ e = ground arith in
      rw kept (elim (Bool-cases t.0) [
        | inl gone ↦ rw (gone, test.2, test.3) (omega (arith, test.0), test.1)
        | inr stays ↦ rw stays (omega (arith, out.0 (ground arith), test.0), out.1 ∙ test.1)
      ])

  -- The bytes of an emission are those of the packet, once for each copy.
  emission_bytes_lem :
      (e : DirectionPacketEffectEngine G) (packet : OwnedPacket A) (now : ℕ)
      → let emission = (process_snapshot s e packet now).0 in
        emission_bytes emission ≡ total_emitted_count emission * packet.size
  emission_bytes_lem e packet now =
      let (_, at_once, later) = process_conserves u s e packet now in
      omega (
        arith,
        packet_bytes_same packet _ at_once,
        scheduled_bytes_same packet _ (All-weaken _ (λ q h. h.0) later),
      )

  module _ (limited : 0 < s.throttle_bytes_per_second)
      (allowed : s.throttle_bytes_per_second ≤ 10_485_760) where
    run_gate :
        (e : DirectionPacketEffectEngine G) (inputs : List (OwnedPacket A × ℕ))
        → s.throttle_revision ≡ e.last_throttle_revision
        → All (λ i. i.0.size ≤ 1500) inputs
        → let (emissions, e') = run s e inputs in
          (e.next_throttle_release_at * s.throttle_bytes_per_second
              + total_bytes emissions * 1_000_000_000
            ≤ e'.next_throttle_release_at * s.throttle_bytes_per_second)
          × (s.throttle_revision ≡ e'.last_throttle_revision)
    unfolding run
    run_gate e [] same fits = (omega arith, same)
    run_gate e ((packet, now) ∷ inputs) same fits =
        let (moved, kept) = process_gate e packet now same limited in
        let rest = run_gate (process_snapshot s e packet now).1 inputs (same ∙ sym kept) fits.1 in
        let step =
          scaled _ _ (total_emitted_count (process_snapshot s e packet now).0) packet.size _ _ moved
            (transmission_time-ge packet.size _ fits.0 limited allowed) in
        (omega (arith, emission_bytes_lem e packet now, rest.0, step), rest.1)

    -- The bandwidth limit. Take any packets, one after another, and the next packet after them:
    -- its copies leave no earlier than the gate at the start, plus the time that all the bytes
    -- emitted so far take at the configured rate (in nanoseconds, multiplied out by the rate).
    -- This holds of the copies that are sent at once and of those that are scheduled.
    pub throttle_rate :
        (e : DirectionPacketEffectEngine G) (inputs : List (OwnedPacket A × ℕ))
        (packet : OwnedPacket A) (now : ℕ)
        → s.throttle_revision ≡ e.last_throttle_revision
        → All (λ i. i.0.size ≤ 1500) inputs
        → let (emissions, e') = run s e inputs in
          let emission = (process_snapshot s e' packet now).0 in
          let start = e.next_throttle_release_at * s.throttle_bytes_per_second in
          let earlier = total_bytes emissions * 1_000_000_000 in
          ((emission.immediate_packets ≡ [])
            ⊎ (start + earlier ≤ now * s.throttle_bytes_per_second))
          × All
              (λ q. start + earlier ≤ q.release_at * s.throttle_bytes_per_second)
              emission.scheduled_packets
    unfolding reset_throttle_state_if_needed
    throttle_rate e inputs packet now same fits =
        let (gate, same') = run_gate e inputs same fits in
        let bps = s.throttle_bytes_per_second in
        let e' = (run s e inputs).1 in
        let g = e'.next_throttle_release_at in
        let on : ltb 0 bps ≡ true = ground arith in
        let kept : (reset_throttle_state_if_needed s e').next_throttle_release_at ≡ g =
          ground arith in
        elim (process_cases u s e' packet now) [
          | inl gone ↦ (inl gone.none_at_once, rw gone.none_later tt)
          | inr out ↦ (
            elim (out.gate_passed on) [
              | inl none ↦ inl none
              | inr passed ↦ inr (le_trans gate (mul-le-mul (rw kept at passed) (le_refl bps)))
            ],
            All-weaken _ (λ q h. le_trans gate (mul-le-mul (rw kept at (h.3 on)) (le_refl bps)))
                out.later,
          )
        ]

module _ {A F G : Type 0} ⦃f : Float F⦄ ⦃r : Random F G⦄ where
  -- After a change of the limit the old gate has no influence: neither on what `Process` emits nor
  -- on the engine that it leaves.
  process_new_revision :
      (s : DirectionEffectSnapshot F) (e : DirectionPacketEffectEngine G) (old_gate : ℕ)
      (packet : OwnedPacket A) (now : ℕ)
      → s.throttle_revision ≢ e.last_throttle_revision
      → process_snapshot s (record e { next_throttle_release_at = old_gate }) packet now
        ≡ process_snapshot s e packet now
  unfolding process_snapshot reset_throttle_state_if_needed
  process_new_revision s e old_gate packet now changed =
      elim (Bool-cases (s.throttle_revision == e.last_throttle_revision)) [
        | inl same ↦ absurd (changed (==_true _ _ same))
        | inr new ↦ rw new refl
      ]

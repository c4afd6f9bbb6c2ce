-- ===== src/Engine/Process.antt =====
-- What `Process` emits: nothing for a dropped packet, else copies of the packet within the delay.
use scrambler.Prelude.{
  ◌==◌, ℕ, ◌+◌, ◌*◌, ◌≤◌, ◌<◌, ◌≡◌, refl, ◌∙◌, Bool, true, false, not, ◌&&◌, ◌⊎◌, [], ltb,
  if◌then◌else◌, Bool-cases, inl, inr, All, All-weaken, arith,
}
use scrambler.PacketData.{OwnedPacket}
use scrambler.Rates.{Float, Random, IsUniform}
use scrambler.Config.Direction.{DirectionEffectSnapshot}
use scrambler.Engine.Emission.{
  PacketEffectKind, PacketEffectEmission, no_emission, has_effect, mark, has_mark,
  total_emitted_count,
}
use scrambler.Engine.Direction.{
  DirectionPacketEffectEngine, reset_throttle_state_if_needed, should_drop_packet, process_snapshot,
}
use scrambler.Engine.Emitted.{IsHeldBack, IsEmission, emit_packet-IsEmission}

module _ {A F G : Type 0} ⦃f : Float F⦄ ⦃r : Random F G⦄ where
  -- What the drop test says, and what it leaves alone.
  record IsTested (s : DirectionEffectSnapshot F) (e : DirectionPacketEffectEngine G)
      (t : Bool × DirectionPacketEffectEngine G × PacketEffectEmission A) : Type 0 where
    drop_mark : has_effect t.2 PacketEffectKind.drop ≡ t.0
    burst_mark : has_effect t.2 PacketEffectKind.burst_drop ≡ t.0 && s.burst_drop_enabled
    no_delay : has_effect t.2 PacketEffectKind.delay ≡ false
    no_jitter : has_effect t.2 PacketEffectKind.delay_jitter ≡ false
    no_duplicate : has_effect t.2 PacketEffectKind.duplicate ≡ false
    no_throttle : has_effect t.2 PacketEffectKind.bandwidth_throttle ≡ false
    none_at_once : t.2.immediate_packets ≡ []
    none_later : t.2.scheduled_packets ≡ []
    same_gate : t.1.next_throttle_release_at ≡ e.next_throttle_release_at

  should_drop_packet-IsTested :
      (s : DirectionEffectSnapshot F) (e : DirectionPacketEffectEngine G)
      → IsTested s e (should_drop_packet s e (no_emission {A = A}))
  unfolding should_drop_packet mark has_mark
  should_drop_packet-IsTested s e = ground arith

module _ {A F : Type 0} where
  -- Of a dropped packet: nothing goes out.
  pub record IsDropped (s : DirectionEffectSnapshot F) (emission : PacketEffectEmission A)
      : Type 0 where
    pub drop_mark : has_effect emission PacketEffectKind.drop ≡ true
    pub burst_mark : has_effect emission PacketEffectKind.burst_drop ≡ s.burst_drop_enabled
    pub no_delay : has_effect emission PacketEffectKind.delay ≡ false
    pub no_jitter : has_effect emission PacketEffectKind.delay_jitter ≡ false
    pub no_duplicate : has_effect emission PacketEffectKind.duplicate ≡ false
    pub no_throttle : has_effect emission PacketEffectKind.bandwidth_throttle ≡ false
    pub none_at_once : emission.immediate_packets ≡ []
    pub none_later : emission.scheduled_packets ≡ []

  dropped_marks :
      (s : DirectionEffectSnapshot F) (now : ℕ) (emission : PacketEffectEmission A)
      → IsDropped s emission
      → let passed = not (has_effect emission PacketEffectKind.drop) in
        (has_effect emission PacketEffectKind.drop ≡ (total_emitted_count emission == 0))
        × (has_effect emission PacketEffectKind.burst_drop ≡ not passed && s.burst_drop_enabled)
        × (has_effect emission PacketEffectKind.duplicate ≡ ltb 1 (total_emitted_count emission))
        × (has_effect emission PacketEffectKind.delay ≡ passed && ltb 0 s.delay)
        × (has_effect emission PacketEffectKind.delay_jitter ≡ passed && ltb 0 s.delay_jitter_ms)
        × ((drawn_delay : ℕ) × (s.delay ≤ drawn_delay)
            × (drawn_delay ≤ s.delay + s.delay_jitter_ms)
            × IsHeldBack s now drawn_delay emission)
  dropped_marks s now emission gone =
      rw (gone.drop_mark, gone.none_at_once, gone.none_later, gone.burst_mark)
        (
          refl,
          refl,
          gone.no_duplicate,
          gone.no_delay,
          gone.no_jitter,
          (
            s.delay,
            omega arith,
            omega arith,
            record { not_before = tt; throttle_mark = ground (arith, gone.no_throttle) },
          ),
        )

emitted_some :
    (total copies : ℕ) (duplicate : Bool)
    → total ≡ (if duplicate then 1 + copies else 1)
    → false ≡ (total == 0)
emitted_some total copies duplicate h = ground arith

module _ {A F G : Type 0} ⦃f : Float F⦄ ⦃r : Random F G⦄ where
  -- The two outcomes of `Process`; the gate is the one that a new revision resets.
  pub process_cases :
      IsUniform F G
      → (s : DirectionEffectSnapshot F) (e : DirectionPacketEffectEngine G) (packet : OwnedPacket A)
        (now : ℕ)
      → IsDropped s (process_snapshot s e packet now).0
        ⊎ IsEmission s
            (reset_throttle_state_if_needed s e).next_throttle_release_at
            packet
            now
            (process_snapshot s e packet now).0
  unfolding process_snapshot
  process_cases u s e packet now =
      let e' = reset_throttle_state_if_needed s e in
      let t = should_drop_packet s e' (no_emission {A = A}) in
      let test = should_drop_packet-IsTested {A = A} s e' in
      let out = emit_packet-IsEmission u s t.1 packet now in
      elim (Bool-cases t.0) [
        | inl gone ↦ rw gone (
            inl (record {
              drop_mark = test.drop_mark ∙ gone;
              burst_mark = ground (arith, test.burst_mark);
              no_delay = test.no_delay;
              no_jitter = test.no_jitter;
              no_duplicate = test.no_duplicate;
              no_throttle = test.no_throttle;
              none_at_once = test.none_at_once;
              none_later = test.none_later;
            }))
        | inr stays ↦ rw stays (inr (rw test.same_gate at out))
      ]

  -- A packet marked as dropped is not emitted at all. Any other goes out once, or, marked as
  -- duplicated, once more for each configured copy; every copy is the packet itself, and each
  -- one that is scheduled is released after `now` and not before the configured delay.
  pub process_conserves :
      IsUniform F G
      → (s : DirectionEffectSnapshot F) (e : DirectionPacketEffectEngine G) (packet : OwnedPacket A)
        (now : ℕ)
      → let emission = (process_snapshot s e packet now).0 in
        (total_emitted_count emission ≡ (
          if has_effect emission PacketEffectKind.drop
          then 0
          else if has_effect emission PacketEffectKind.duplicate
          then 1 + s.duplicate_count
          else 1))
        × All (λ p. p ≡ packet) emission.immediate_packets
        × All
            (λ q.
              (q.packet ≡ packet)
              × (now < q.release_at)
              × (now + s.delay * 1_000_000 ≤ q.release_at))
            emission.scheduled_packets
  process_conserves u s e packet now = elim (process_cases u s e packet now) [
    | inl gone ↦ rw (gone.drop_mark, gone.none_at_once, gone.none_later) (refl, tt, tt)
    | inr out ↦
        rw out.no_drop (out.total, out.at_once, All-weaken _ (λ q h. (h.0, h.1, h.2)) out.later)
  ]

  -- All six marks say what was done: a drop exactly if nothing is emitted; a burst drop exactly
  -- for a packet dropped while bursts are enabled; a duplicate exactly if more than one copy goes
  -- out; for a packet that is not dropped, delay exactly if there is one, and jitter exactly if
  -- there is some. Some delay was drawn, between the configured one and that with the largest jitter,
  -- before which no scheduled copy leaves; the throttle is marked exactly if it is on and a copy leaves
  -- later than that.
  pub process_marks :
      IsUniform F G
      → (s : DirectionEffectSnapshot F) (e : DirectionPacketEffectEngine G) (packet : OwnedPacket A)
        (now : ℕ)
      → let emission = (process_snapshot s e packet now).0 in
        let passed = not (has_effect emission PacketEffectKind.drop) in
        (has_effect emission PacketEffectKind.drop ≡ (total_emitted_count emission == 0))
        × (has_effect emission PacketEffectKind.burst_drop ≡ not passed && s.burst_drop_enabled)
        × (has_effect emission PacketEffectKind.duplicate ≡ ltb 1 (total_emitted_count emission))
        × (has_effect emission PacketEffectKind.delay ≡ passed && ltb 0 s.delay)
        × (has_effect emission PacketEffectKind.delay_jitter ≡ passed && ltb 0 s.delay_jitter_ms)
        × ((drawn_delay : ℕ) × (s.delay ≤ drawn_delay)
            × (drawn_delay ≤ s.delay + s.delay_jitter_ms)
            × IsHeldBack s now drawn_delay emission)
  process_marks u s e packet now = elim (process_cases u s e packet now) [
    | inl gone ↦ dropped_marks s now (process_snapshot s e packet now).0 gone
    | inr out ↦ rw out.no_drop (
      emitted_some _ s.duplicate_count _ out.total,
      out.no_burst,
      out.duplicate_mark,
      out.delay_mark,
      out.jitter_mark,
      out.throttle_mark,
    )
  ]

  -- No scheduled copy is released before the configured delay, a configured delay leaves none to go
  -- out at once, and with no throttle every copy is released within the delay and the largest
  -- jitter.
  pub process_timely :
      IsUniform F G
      → (s : DirectionEffectSnapshot F) (e : DirectionPacketEffectEngine G) (packet : OwnedPacket A)
        (now : ℕ)
      → let emission = (process_snapshot s e packet now).0 in
        (0 < s.delay → emission.immediate_packets ≡ [])
        × All (λ q. now + s.delay * 1_000_000 ≤ q.release_at) emission.scheduled_packets
        × (s.throttle_bytes_per_second ≡ 0
            → All
                (λ q. q.release_at ≤ now + (s.delay + s.delay_jitter_ms) * 1_000_000)
                emission.scheduled_packets)
  process_timely u s e packet now = elim (process_cases u s e packet now) [
    | inl gone ↦ (λ _. gone.none_at_once, rw gone.none_later tt, λ _. rw gone.none_later tt)
    | inr out ↦ (out.delayed, All-weaken _ (λ q h. h.2) out.later, out.timely)
  ]

-- ===== src/Engine/Drawn.antt =====
-- The draws of `Process` for a packet that is not dropped: how many copies, and what delay.
use scrambler.Prelude.{ℕ, ◌+◌, ◌≤◌, ◌<◌, ◌≡◌, false, [], ltb, if◌then◌else◌, arith}
use scrambler.Rates.{Float, Random, IsUniform, should_apply_rate}
use scrambler.Config.Direction.{DirectionEffectSnapshot}
use scrambler.Engine.Emission.{PacketEffectKind, PacketEffectEmission, no_emission, mark, has_mark}
use scrambler.Engine.Direction.{
  DirectionPacketEffectEngine, resolve_copy_count, resolve_scheduled_delay,
}

-- The parts of `emit_packet`: the count and the delay that were drawn, and the mask before the
-- copies are made.
pub record Drawn (A G : Type 0) : Type 0 where
  pub count : ℕ
  pub delay : ℕ
  pub engine : DirectionPacketEffectEngine G
  pub labelled : PacketEffectEmission A

module _ {A F G : Type 0} ⦃f : Float F⦄ ⦃r : Random F G⦄ where
  unfoldable pub drawn : DirectionEffectSnapshot F → DirectionPacketEffectEngine G → Drawn A G
  drawn s e =
      let (count, counted, marked) = resolve_copy_count s e (no_emission {A = A}) in
      let (delay, delayed, labelled) = resolve_scheduled_delay s counted marked in
      record { count = count; delay = delay; engine = delayed; labelled = labelled }

  pub record IsDrawn (s : DirectionEffectSnapshot F) (e : DirectionPacketEffectEngine G)
      (d : Drawn A G) : Type 0 where
    pub count_eq : d.count ≡ (
        if has_mark d.labelled.applied_effects PacketEffectKind.duplicate
        then 1 + s.duplicate_count
        else 1)
    pub duplicate_mark :
        has_mark d.labelled.applied_effects PacketEffectKind.duplicate ≡ ltb 1 d.count
    pub no_drop : has_mark d.labelled.applied_effects PacketEffectKind.drop ≡ false
    pub no_burst : has_mark d.labelled.applied_effects PacketEffectKind.burst_drop ≡ false
    pub no_throttle :
        has_mark d.labelled.applied_effects PacketEffectKind.bandwidth_throttle ≡ false
    pub delay_mark : has_mark d.labelled.applied_effects PacketEffectKind.delay ≡ ltb 0 s.delay
    pub jitter_mark :
        has_mark d.labelled.applied_effects PacketEffectKind.delay_jitter ≡ ltb 0 s.delay_jitter_ms
    pub byte : d.labelled.applied_effects < 256
    pub delay_ge : s.delay ≤ d.delay
    pub delay_le : d.delay ≤ s.delay + s.delay_jitter_ms
    pub none_at_once : d.labelled.immediate_packets ≡ []
    pub none_later : d.labelled.scheduled_packets ≡ []
    pub same_gate : d.engine.next_throttle_release_at ≡ e.next_throttle_release_at
    pub same_burst : d.engine.burst_packets_remaining ≡ e.burst_packets_remaining
    pub same_revision : d.engine.last_throttle_revision ≡ e.last_throttle_revision

  pub drawn-IsDrawn :
      IsUniform F G
      → (s : DirectionEffectSnapshot F) (e : DirectionPacketEffectEngine G)
      → IsDrawn s e (drawn s e)
  unfolding drawn resolve_copy_count resolve_scheduled_delay mark has_mark
  drawn-IsDrawn u s e = ground (
    arith,
    u.uniform_int-le s.delay_jitter_ms e.rng,
    u.uniform_int-le s.delay_jitter_ms (should_apply_rate s.duplicate_rate e.rng).1,
  )

-- ===== src/Engine/Emitted.antt =====
-- What `emit_packet` emits of a packet that is not dropped: its copies, their times, and the marks.
use scrambler.Prelude.{
  Bool, ◌∷◌, sym, ◌||◌, ◌&&◌, map, ℕ, ◌+◌, ◌*◌, ◌≤◌, ◌<◌, ◌≡◌, refl, ap, ◌∙◌, true, false, ◌⊎◌,
  List, [], ltb, if◌then◌else◌, inl, inr, length, All, All-both, All-weaken, All-replicate, All-map,
  length-map, length-replicate, arith,
}
use scrambler.PacketData.{OwnedPacket, ScheduledPacket}
use scrambler.Rates.{Float, Random, IsUniform}
use scrambler.Config.Direction.{DirectionEffectSnapshot}
use scrambler.Engine.Emission.{
  PacketEffectKind, PacketEffectEmission, has_effect, has_mark, has_mark-mark, same_kind,
  total_emitted_count,
}
use scrambler.Engine.Direction.{DirectionPacketEffectEngine, emit_packet}
use scrambler.Engine.Drawn.{Drawn, drawn, IsDrawn, drawn-IsDrawn}
use scrambler.Engine.Schedule.{Emitted, emit_packet_copies_lem, scheduled_at}
use scrambler.Engine.Times.{
  any_above, late-any_above, release_times, release_times-ge, release_times_plain,
  length-release_times, on_time, on_time-eq-zero, on_time_gate, late, on_time-add-late, late-IsLate,
  All-late,
}

-- If a scheduled packet is released after a time.
abbrev pub any_after : {A : Type 0} → ℕ → List (ScheduledPacket A) → Bool
any_after base [] = false
any_after base (q ∷ qs) = ltb base q.release_at || any_after base qs

any_after-map :
    {A : Type 0} (packet : OwnedPacket A) (base : ℕ) (ts : List ℕ)
    → any_after base (map (scheduled_at packet) ts) ≡ any_above base ts
any_after-map packet base [] = refl
any_after-map packet base (t ∷ ts) = ap (λ b. ltb base t || b) (any_after-map packet base ts)

module _ {A F : Type 0} where
  -- No copy that is scheduled leaves before the delay, and the throttle is marked exactly if it
  -- holds one back for longer.
  pub record IsHeldBack (s : DirectionEffectSnapshot F) (now delay_ms : ℕ)
      (emission : PacketEffectEmission A) : Type 0 where
    pub not_before : All (λ q. now + delay_ms * 1_000_000 ≤ q.release_at) emission.scheduled_packets
    pub throttle_mark : has_effect emission PacketEffectKind.bandwidth_throttle ≡ (
        ltb 0 s.throttle_bytes_per_second
        && any_after (now + delay_ms * 1_000_000) emission.scheduled_packets)

  -- Of a packet that is not dropped: the copies, their times, and the marks.
  pub record IsEmission (s : DirectionEffectSnapshot F) (gate : ℕ) (packet : OwnedPacket A)
      (now : ℕ) (emission : PacketEffectEmission A) : Type 0 where
    pub total :
        total_emitted_count emission
        ≡ (if has_effect emission PacketEffectKind.duplicate then 1 + s.duplicate_count else 1)
    pub at_once : All (λ p. p ≡ packet) emission.immediate_packets
    pub later :
        All
          (λ q.
            (q.packet ≡ packet)
            × (now < q.release_at)
            × (now + s.delay * 1_000_000 ≤ q.release_at)
            × (ltb 0 s.throttle_bytes_per_second ≡ true → gate ≤ q.release_at))
          emission.scheduled_packets
    pub delayed : 0 < s.delay → emission.immediate_packets ≡ []
    pub gate_passed :
        ltb 0 s.throttle_bytes_per_second ≡ true → (emission.immediate_packets ≡ []) ⊎ (gate ≤ now)
    pub timely :
        s.throttle_bytes_per_second ≡ 0
        → All
            (λ q. q.release_at ≤ now + (s.delay + s.delay_jitter_ms) * 1_000_000)
            emission.scheduled_packets
    pub duplicate_mark :
        has_effect emission PacketEffectKind.duplicate ≡ ltb 1 (total_emitted_count emission)
    pub throttle_mark :
        (drawn_delay : ℕ) × (s.delay ≤ drawn_delay)
        × (drawn_delay ≤ s.delay + s.delay_jitter_ms)
        × IsHeldBack s now drawn_delay emission
    pub no_drop : has_effect emission PacketEffectKind.drop ≡ false
    pub no_burst : has_effect emission PacketEffectKind.burst_drop ≡ false
    pub delay_mark : has_effect emission PacketEffectKind.delay ≡ ltb 0 s.delay
    pub jitter_mark : has_effect emission PacketEffectKind.delay_jitter ≡ ltb 0 s.delay_jitter_ms

module _ {A F G : Type 0} ⦃f : Float F⦄ ⦃r : Random F G⦄ where
  module _ (s : DirectionEffectSnapshot F) (e : DirectionPacketEffectEngine G)
      (packet : OwnedPacket A) (now : ℕ) (d : Drawn A G) (i : IsDrawn s e d)
      (emission : PacketEffectEmission A) (e' : DirectionPacketEffectEngine G)
      (h : Emitted packet d.count now d.delay s.throttle_bytes_per_second d.engine d.labelled
        emission e') where
    abbrev times : List ℕ
    times =
        release_times packet.size now d.delay s.throttle_bytes_per_second
          d.engine.next_throttle_release_at d.count

    -- The copies touch no mark but that of the throttle.
    same_marks :
        (kind : PacketEffectKind)
        → same_kind PacketEffectKind.bandwidth_throttle kind ≡ false
        → has_effect emission kind ≡ has_mark d.labelled.applied_effects kind
    same_marks kind other = ground (
      arith,
      h.effects,
      has_mark-mark d.labelled.applied_effects PacketEffectKind.bandwidth_throttle kind i.byte,
    )

    pub total_lem : total_emitted_count emission ≡ d.count
    total_lem = ground (
      arith,
      ap length h.at_once,
      ap length h.later,
      i.none_at_once,
      i.none_later,
      length-replicate (on_time now times) packet,
      length-map (scheduled_at packet) (late now times),
      on_time-add-late now times,
      length-release_times packet.size now d.delay s.throttle_bytes_per_second
          d.engine.next_throttle_release_at d.count,
    )

    late_lem :
        All
          (λ t.
            (packet ≡ packet)
            × (now < t)
            × (now + s.delay * 1_000_000 ≤ t)
            × (ltb 0 s.throttle_bytes_per_second ≡ true → e.next_throttle_release_at ≤ t))
          (late now times)
    late_lem =
        All-weaken (late now times)
          (λ t b. (
            refl,
            b.0,
            omega (arith, b.1.0, i.delay_ge),
            λ limited. omega (arith, b.1.1 limited, i.same_gate),
          ))
          (All-both _ _ (late now times) (late-IsLate now times) (
            All-late _ now times (
              release_times-ge packet.size now d.delay s.throttle_bytes_per_second
                d.engine.next_throttle_release_at d.count)))

    delayed_lem : 0 < s.delay → emission.immediate_packets ≡ []
    delayed_lem positive =
        let gate = d.engine.next_throttle_release_at in
        let after =
          All-weaken
            {P = λ t.
              (now + d.delay * 1_000_000 ≤ t)
              × (ltb 0 s.throttle_bytes_per_second ≡ true → gate ≤ t)}
            {Q = λ t. now < t} times (λ t b. omega (arith, b.0, i.delay_ge))
            (release_times-ge packet.size now d.delay s.throttle_bytes_per_second gate d.count) in
        rw (h.at_once, i.none_at_once, on_time-eq-zero now times after) refl

    throttled_mark :
        has_effect emission PacketEffectKind.bandwidth_throttle
        ≡ (ltb 0 s.throttle_bytes_per_second && any_above (now + d.delay * 1_000_000) times)
    throttled_mark = ground (
      arith,
      h.effects,
      i.no_throttle,
      has_mark-mark d.labelled.applied_effects PacketEffectKind.bandwidth_throttle
          PacketEffectKind.bandwidth_throttle i.byte,
    )

    held_back : IsHeldBack s now d.delay emission
    held_back =
        let base = now + d.delay * 1_000_000 in
        let limited = ltb 0 s.throttle_bytes_per_second in
        let same : any_after base emission.scheduled_packets ≡ any_above base times =
          rw (h.later, i.none_later)
            (any_after-map packet base (late now times)
              ∙ late-any_above now base times (omega arith)) in
        record {
          not_before =
              rw (h.later, i.none_later)
                (All-map (scheduled_at packet) _ (late now times) (
                  All-weaken (late now times) (λ t b. b.0)
                    (All-late _ now times (
                      release_times-ge packet.size now d.delay s.throttle_bytes_per_second
                        d.engine.next_throttle_release_at d.count))));
          throttle_mark = throttled_mark ∙ ap (λ b. limited && b) (sym same);
        }

    gate_passed_lem :
        ltb 0 s.throttle_bytes_per_second ≡ true
        → (emission.immediate_packets ≡ []) ⊎ (e.next_throttle_release_at ≤ now)
    gate_passed_lem limited =
        let gate = d.engine.next_throttle_release_at in
        let after =
          All-weaken
            {P = λ t.
              (now + d.delay * 1_000_000 ≤ t)
              × (ltb 0 s.throttle_bytes_per_second ≡ true → gate ≤ t)}
            {Q = λ t. gate ≤ t} times (λ t b. b.1 limited)
            (release_times-ge packet.size now d.delay s.throttle_bytes_per_second gate d.count) in
        elim (on_time_gate now gate times after) [
          | inl none ↦ inl (rw (h.at_once, i.none_at_once, none) refl)
          | inr passed ↦ inr (omega (arith, i.same_gate))
        ]

    timely_lem :
        s.throttle_bytes_per_second ≡ 0
        → All (λ t. t ≤ now + (s.delay + s.delay_jitter_ms) * 1_000_000) times
    timely_lem free =
        rw
          (
            free,
            release_times_plain packet.size now d.delay d.engine.next_throttle_release_at d.count,
          )
          (All-replicate _ d.count _ (omega (arith, i.delay_le)))

    Emitted-IsEmission : IsEmission s e.next_throttle_release_at packet now emission
    Emitted-IsEmission = record {
      total = rw (total_lem, same_marks PacketEffectKind.duplicate refl) i.count_eq;
      at_once = rw (h.at_once, i.none_at_once) (All-replicate _ (on_time now times) packet refl);
      later =
          rw (h.later, i.none_later) (All-map (scheduled_at packet) _ (late now times) late_lem);
      delayed = delayed_lem;
      gate_passed = gate_passed_lem;
      timely = λ free.
          rw (h.later, i.none_later)
            (All-map (scheduled_at packet) _ (late now times)
              (All-late _ now times (timely_lem free)));
      duplicate_mark =
          same_marks PacketEffectKind.duplicate refl
          ∙ i.duplicate_mark
          ∙ ap (λ n. ltb 1 n) (sym total_lem);
      throttle_mark = (d.delay, i.delay_ge, i.delay_le, held_back);
      no_drop = same_marks PacketEffectKind.drop refl ∙ i.no_drop;
      no_burst = same_marks PacketEffectKind.burst_drop refl ∙ i.no_burst;
      delay_mark = same_marks PacketEffectKind.delay refl ∙ i.delay_mark;
      jitter_mark = same_marks PacketEffectKind.delay_jitter refl ∙ i.jitter_mark;
    }

  pub emit_packet-IsEmission :
      IsUniform F G
      → (s : DirectionEffectSnapshot F) (e : DirectionPacketEffectEngine G) (packet : OwnedPacket A)
        (now : ℕ)
      → IsEmission s e.next_throttle_release_at packet now (emit_packet s e packet now).0
  unfolding emit_packet drawn
  emit_packet-IsEmission u s e packet now =
      let d : Drawn A G = drawn s e in
      let i : IsDrawn s e d = drawn-IsDrawn u s e in
      Emitted-IsEmission s e packet now d i _ _ (
        emit_packet_copies_lem packet d.count now d.delay s.throttle_bytes_per_second d.engine
          d.labelled (ground (arith, i.count_eq)))

-- ===== src/Interceptor/Targeted.antt =====
-- What becomes of a packet of a chosen process: dropped and counted, or sent in copies of itself.
use mathlib.Core.List.{append-nil}
use scrambler.Prelude.{
  ℕ, zero, suc, ◌+◌, ◌-◌, ◌*◌, ◌≤◌, ◌<◌, ◌≡◌, refl, ◌∙◌, ap, subst, ◌⊎◌, inl, inr, Bool, true,
  false, ltb, Bool-cases, List, [], ◌∷◌, ◌++◌, foldl, if◌then◌else◌, length, replicate, All,
  All-weaken, arith,
}
use scrambler.Types.{FiveTuple, standard_mtu_size}
use scrambler.PacketData.{OwnedPacket, ScheduledPacket, PacketMetadata, bytes, copy_from_lem}
use scrambler.Rates.{Float, Random, IsUniform}
use scrambler.Config.Effects
use scrambler.Config.Effects.{EffectConfig}
use scrambler.Config.Direction.{DirectionEffectSnapshot}
use scrambler.Engine.Emission.{
  PacketEffectKind, PacketEffectEmission, has_effect, total_emitted_count,
}
use scrambler.Engine.Direction.{process_snapshot}
use scrambler.Engine.Direction
use scrambler.Engine.Process.{process_conserves}
use scrambler.Engine.Both
use scrambler.Engine.Both.{PacketEffectEngine, engine_for}
use scrambler.Delay.Interfaces.{PriorityQueue, SpscQueue}
use scrambler.Delay.Queue.{Entry, push}
use scrambler.Interceptor.Capture.{WinDivert, Turn, add_to, append_immediate_packet}
use scrambler.Interceptor.Packet.{
  Capturing, append_immediates, push_scheduled, count_effects, send_emission, affect_packet,
}
use scrambler.Interceptor.Passed.{IsPassed, append_immediate-IsPassed, IsPassed-then}

module _ {A F G : Type 0} ⦃f : Float F⦄ ⦃r : Random F G⦄ where
  -- The engine of both directions emits what that of the packet's direction does.
  process_by_direction :
      (effects : EffectConfig F) (e : PacketEffectEngine G) (packet : OwnedPacket A) (now : ℕ)
      (out : Bool)
      → packet.metadata.is_outbound ≡ out
      → (Both.process effects e packet now).0
        ≡ (process_snapshot (Effects.snapshot effects out) (engine_for e out) packet now).0
  unfolding Both.process Direction.process Effects.snapshot
  process_by_direction effects e packet now true h = rw h refl
  process_by_direction effects e packet now false h = rw h refl

  both_conserves :
      IsUniform F G
      → (effects : EffectConfig F) (e : PacketEffectEngine G) (packet : OwnedPacket A) (now : ℕ)
        (out : Bool)
      → packet.metadata.is_outbound ≡ out
      → let s = Effects.snapshot effects out in
        let emission = (Both.process effects e packet now).0 in
        (total_emitted_count emission ≡ (
          if has_effect emission PacketEffectKind.drop
          then 0
          else if has_effect emission PacketEffectKind.duplicate
          then 1 + s.duplicate_count
          else 1))
        × All (λ p. p ≡ packet) emission.immediate_packets
        × All
            (λ q.
              (q.packet ≡ packet)
              × (now < q.release_at)
              × (now + s.delay * 1_000_000 ≤ q.release_at))
            emission.scheduled_packets
  both_conserves u effects e packet now out h =
      rw (process_by_direction effects e packet now out h)
        (process_conserves u (Effects.snapshot effects out) (engine_for e out) packet now)

too_big : (xs : List ℕ) → standard_mtu_size < length xs → length xs ≤ standard_mtu_size → ⊥
too_big xs h h' = omega arith

-- The bytes of a number of copies.
abbrev pub repeat : ℕ → List ℕ → List ℕ
repeat zero data_bytes = []
repeat (suc n) data_bytes = data_bytes ++ repeat n data_bytes

module _ {capacity : ℕ} (ring : SpscQueue ℕ capacity) (heap : PriorityQueue Entry (λ e. e.due))
    {A D G H : Type 0} where
  append_immediates-IsPassed :
      (ps : List (OwnedPacket A)) (packet : OwnedPacket A) (c : Capturing ring heap A D G H)
      → All (λ p. p ≡ packet) ps
      → length (bytes packet) ≤ standard_mtu_size
      → IsPassed
          (repeat (length ps) (bytes packet))
          (replicate (length ps) packet.addr)
          c
          (append_immediates ring heap ps c)
  unfolding append_immediates
  append_immediates-IsPassed [] packet c h fits = record {
    buf = rw append-nil refl;
    addresses = rw append-nil refl;
    same_queue = refl;
    same_engine = refl;
    same_reinjected = refl;
    same_failures = refl;
    same_dropped = refl;
    same_delayed = refl;
    same_duplicated = refl;
  }
  append_immediates-IsPassed (p ∷ ps) packet c h fits =
      let one = append_immediate-IsPassed (bytes packet) packet.addr c fits in
      let c₁ = append_immediate_packet (bytes packet) packet.addr c in
      rw h.0 (
        IsPassed-then (bytes packet) (repeat (length ps) (bytes packet)) packet.addr
          (replicate (length ps) packet.addr) c c₁ _ one
          (append_immediates-IsPassed ps packet c₁ h.1 fits))

  -- What a packet of a chosen process leaves behind, dropped or in copies: `at_once` of them in
  -- the batch, the others pushed on the delay queue.
  pub record IsAffected {F : Type 0} (s : DirectionEffectSnapshot F) (out : Bool) (now : ℕ)
      (data_bytes : List ℕ) (addr : A) (c c' : Capturing ring heap A D G H) : Type 0 where
    pub at_once : ℕ
    pub later : List (ScheduledPacket A)
    pub buf : c'.send_buf ≡ c.send_buf ++ repeat at_once data_bytes
    pub addresses : c'.send_addrs ≡ c.send_addrs ++ replicate at_once addr
    pub pushed : c'.queue ≡ foldl (λ d p. push ring heap p d) c.queue later
    pub copies :
        All
          (λ q.
            (bytes q.packet ≡ data_bytes)
            × (q.packet.addr ≡ addr)
            × (now < q.release_at)
            × (now + s.delay * 1_000_000 ≤ q.release_at))
          later
    pub delayed :
        c'.counts.delayed
        ≡ (if ltb 0 (length later) then add_to out 1 c.counts.delayed else c.counts.delayed)
    pub outcome :
        ((at_once + length later ≡ 0) × (c'.counts.dropped ≡ add_to out 1 c.counts.dropped))
        ⊎ ((c'.counts.dropped ≡ c.counts.dropped)
            × (((at_once + length later ≡ 1) × (c'.counts.duplicated ≡ c.counts.duplicated))
                ⊎ ((at_once + length later ≡ 1 + s.duplicate_count)
                    × (c'.counts.duplicated ≡ add_to out s.duplicate_count c.counts.duplicated))))

  send_emission-IsAffected :
      {F : Type 0} (s : DirectionEffectSnapshot F) (out : Bool) (now : ℕ) (data_bytes : List ℕ)
      (packet : OwnedPacket A) (emission : PacketEffectEmission A) (engine : PacketEffectEngine G)
      (c : Capturing ring heap A D G H)
      → bytes packet ≡ data_bytes
      → length data_bytes ≤ standard_mtu_size
      → total_emitted_count emission ≡ (
          if has_effect emission PacketEffectKind.drop
          then 0
          else if has_effect emission PacketEffectKind.duplicate
          then 1 + s.duplicate_count
          else 1)
      → All (λ p. p ≡ packet) emission.immediate_packets
      → All
          (λ q.
            (q.packet ≡ packet) × (now < q.release_at) × (now + s.delay * 1_000_000 ≤ q.release_at))
          emission.scheduled_packets
      → IsAffected s out now data_bytes packet.addr c
          (send_emission ring heap out emission (record c { engine = engine }))
  unfolding send_emission push_scheduled count_effects
  send_emission-IsAffected s out now data_bytes packet emission engine c same fits total at_once
        later =
      let counted : Capturing ring heap A D G H = record c {
        engine = engine;
        counts = count_effects out emission c.counts;
      } in
      let p =
        append_immediates-IsPassed emission.immediate_packets packet counted at_once
          (rw same fits) in
      record {
        at_once = length emission.immediate_packets;
        later = emission.scheduled_packets;
        buf = p.buf ∙ rw same refl;
        addresses = p.addresses;
        pushed = rw p.same_queue refl;
        copies =
            All-weaken emission.scheduled_packets (λ q h. (rw h.0 same, rw h.0 refl, h.1, h.2))
              later;
        delayed = p.same_delayed;
        outcome = elim (Bool-cases (has_effect emission PacketEffectKind.drop)) [
          | inl gone ↦ inl (rw gone at total, p.same_dropped ∙ rw gone refl)
          | inr stays ↦ inr (
            p.same_dropped ∙ rw stays refl,
            elim (Bool-cases (has_effect emission PacketEffectKind.duplicate)) [
              | inl more ↦
                  let extra : total_emitted_count emission - 1 ≡ s.duplicate_count =
                    omega (arith, rw (stays, more) at total) in
                  inr (rw (stays, more) at total, p.same_duplicated ∙ rw (more, extra) refl)
              | inr once ↦ inl (rw (stays, once) at total, p.same_duplicated ∙ rw once refl)
            ],
          )
        ];
      }

  module _ {F : Type 0} ⦃f : Float F⦄ ⦃r : Random F G⦄ (w : WinDivert A D) where
    -- A packet of a chosen process that fits the MTU is dropped, and counted as dropped, or it goes
    -- out once, or once more for each configured copy, counted as duplicated. Each copy is the
    -- packet's bytes with its address: some in the batch that is sent at once, the others pushed on
    -- the delay queue, released after the present and not before the configured delay.
    pub affect_packet_copies :
        IsUniform F G
        → (t : Turn A F) (tuple : FiveTuple) (pid : ℕ) (data_bytes : List ℕ)
          (c : Capturing ring heap A D G H)
        → length data_bytes ≤ standard_mtu_size
        → let out = w.is_outbound t.addr in
          IsAffected
            (Effects.snapshot t.effects out)
            out
            t.now
            data_bytes
            t.addr
            c
            (affect_packet ring heap w t tuple pid data_bytes c)
    unfolding affect_packet
    affect_packet_copies u t tuple pid data_bytes c fits =
        let out = w.is_outbound t.addr in
        let meta : PacketMetadata = record { tuple = tuple; pid = pid; is_outbound = out } in
        elim (copy_from_lem data_bytes t.addr meta) [
          | inl (big, refused) ↦ absurd (too_big data_bytes big fits)
          | inr (_, (packet, copied, copy)) ↦
              let same_out : packet.metadata.is_outbound ≡ out =
                ap (λ (m : PacketMetadata). m.is_outbound) copy.same_metadata in
              let (total, at_once, later) =
                both_conserves u t.effects c.engine packet t.now out same_out in
              let (emission, engine) = Both.process t.effects c.engine packet t.now in
              let done =
                send_emission-IsAffected (Effects.snapshot t.effects out) out t.now data_bytes
                  packet emission engine c copy.same_bytes fits total at_once later in
              rw (copied, affect_packet)
                (subst
                  (λ a.
                    IsAffected (Effects.snapshot t.effects out) out t.now data_bytes a c
                      (send_emission ring heap out emission (record c { engine = engine })))
                  copy.same_addr done)
        ]

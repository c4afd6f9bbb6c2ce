-- ===== src/Interceptor/Packet.antt =====
-- One packet of a batch in `CaptureLoop`: whose it is, and what becomes of it.
use scrambler.Prelude.{ℕ, ◌-◌, Bool, not, ◌&&◌, none, some, List, foldl, ltb, ◌==◌, if◌then◌else◌}
use scrambler.Types.{FiveTuple, Parsed, tuple_from_packet}
use scrambler.PacketData.{OwnedPacket, ScheduledPacket, bytes, copy_from}
use scrambler.Rates.{Float, Random}
use scrambler.Targets.{contains}
use scrambler.Flow.Tracker.{lookup_pid}
use scrambler.Engine.Emission.{
  PacketEffectKind, PacketEffectEmission, has_effect, scheduled_count, total_emitted_count,
}
use scrambler.Engine.Both
use scrambler.Engine.Both.{PacketEffectEngine}
use scrambler.Delay.Interfaces.{PriorityQueue, SpscQueue}
use scrambler.Delay.Queue.{Entry, Delayed, push}
use scrambler.Interceptor.Capture.{
  WinDivert, Turn, Capture, Counts, add_to, append_immediate_packet,
}

-- The counters for what the engine has done to a packet. What is marked as a duplicate is emitted
-- at least once, so the subtraction has something to subtract from.
unfoldable pub count_effects : {A : Type 0} → Bool → PacketEffectEmission A → Counts → Counts
count_effects out emission k = record k {
  dropped = if has_effect emission PacketEffectKind.drop then add_to out 1 k.dropped else k.dropped;
  delayed = if ltb 0 (scheduled_count emission) then add_to out 1 k.delayed else k.delayed;
  duplicated =
      if has_effect emission PacketEffectKind.duplicate
      then add_to out (total_emitted_count emission - 1) k.duplicated
      else k.duplicated;
}

-- A run of the loop over the delay queue of these parts.
abbrev pub Capturing :
    {capacity : ℕ} (ring : SpscQueue ℕ capacity) (heap : PriorityQueue Entry (λ e. e.due))
    → (A D G H : Type 0) → Type 0
Capturing ring heap A D G H = Capture A G H (Delayed ring heap A D)

module _ {capacity : ℕ} (ring : SpscQueue ℕ capacity) (heap : PriorityQueue Entry (λ e. e.due))
    {A D G H : Type 0} where
  unfoldable pub append_immediates :
      List (OwnedPacket A) → Capturing ring heap A D G H → Capturing ring heap A D G H
  unfolding append_immediate_packet bytes
  append_immediates packets c =
      foldl (λ st p. append_immediate_packet (bytes p) p.addr st) c packets

  unfoldable pub push_scheduled :
      List (ScheduledPacket A) → Capturing ring heap A D G H → Capturing ring heap A D G H
  unfolding push
  push_scheduled packets c = record c { queue = foldl (λ d p. push ring heap p d) c.queue packets }

  -- What becomes of what the engine emits.
  unfoldable pub send_emission :
      Bool → PacketEffectEmission A → Capturing ring heap A D G H → Capturing ring heap A D G H
  unfolding count_effects append_immediates push_scheduled
  send_emission out emission c = push_scheduled emission.scheduled_packets (
      append_immediates emission.immediate_packets
        (record c { counts = count_effects out emission c.counts }))

  module _ {F : Type 0} ⦃f : Float F⦄ ⦃r : Random F G⦄ (w : WinDivert A D) where
    -- A packet of a chosen process: through the engine, unless it is too long to be copied.
    unfoldable pub affect_packet :
        Turn A F
        → FiveTuple
        → (pid : ℕ) → List ℕ
        → Capturing ring heap A D G H
        → Capturing ring heap A D G H
    unfolding copy_from send_emission
    affect_packet t tuple pid data_bytes c =
        let out = w.is_outbound t.addr in
        elim (copy_from data_bytes t.addr
          (record { tuple = tuple; pid = pid; is_outbound = out })) [
            | none ↦ append_immediate_packet data_bytes t.addr c
            | some packet ↦
                let (emission, engine) = Both.process t.effects c.engine packet t.now in
                send_emission out emission (record c { engine = engine })
          ]

    -- A UDP packet: the tracker says whose it is.
    unfoldable pub handle_udp :
        Turn A F → FiveTuple → List ℕ → Capturing ring heap A D G H → Capturing ring heap A D G H
    unfolding affect_packet contains
    handle_udp t tuple data_bytes c =
        let (pid, tracker) =
          lookup_pid w.ntohl w.ntohs tuple (w.is_outbound t.addr) t.table c.tracker in
        let looked : Capturing ring heap A D G H = record c { tracker = tracker } in
        if not (pid == 0) && contains t.targets pid
        then affect_packet t tuple pid data_bytes looked
        else append_immediate_packet data_bytes t.addr looked

    unfoldable pub handle_packet :
        Turn A F → Parsed → List ℕ → Capturing ring heap A D G H → Capturing ring heap A D G H
    unfolding handle_udp tuple_from_packet
    handle_packet t found data_bytes c = elim found.ip [
      | none ↦ append_immediate_packet data_bytes t.addr c
      | some ip ↦ elim found.udp [
        | none ↦ append_immediate_packet data_bytes t.addr c
        | some udp ↦ handle_udp t (tuple_from_packet w.ntohl w.ntohs ip udp) data_bytes c
      ]
    ]

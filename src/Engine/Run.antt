-- ===== src/Engine/Run.antt =====
-- Packets handed to `Process` one after another, under one snapshot.
use scrambler.Prelude.{ℕ, ◌+◌, ◌*◌, ◌≡◌, refl, List, [], ◌∷◌, length, All, arith}
use scrambler.PacketData.{OwnedPacket, ScheduledPacket}
use scrambler.Rates.{Float, Random}
use scrambler.Config.Direction.{DirectionEffectSnapshot}
use scrambler.Engine.Emission.{PacketEffectEmission}
use scrambler.Engine.Direction.{DirectionPacketEffectEngine, process_snapshot}

module _ {A F G : Type 0} ⦃f : Float F⦄ ⦃r : Random F G⦄ where
  unfoldable pub run :
      DirectionEffectSnapshot F
      → DirectionPacketEffectEngine G
      → List (OwnedPacket A × ℕ)
      → List (PacketEffectEmission A) × DirectionPacketEffectEngine G
  run s e [] = ([], e)
  run s e ((packet, now) ∷ inputs) =
      let (emission, e') = process_snapshot s e packet now in
      let (emissions, last) = run s e' inputs in (emission ∷ emissions, last)

  pub length-run :
      (s : DirectionEffectSnapshot F) (e : DirectionPacketEffectEngine G)
      (inputs : List (OwnedPacket A × ℕ))
      → length (run s e inputs).0 ≡ length inputs
  unfolding run
  length-run s e [] = refl
  length-run s e ((packet, now) ∷ inputs) =
      omega (arith, length-run s (process_snapshot s e packet now).1 inputs)

module _ {A : Type 0} where
  abbrev pub packet_bytes : List (OwnedPacket A) → ℕ
  packet_bytes [] = 0
  packet_bytes (p ∷ ps) = p.size + packet_bytes ps

  abbrev pub scheduled_bytes : List (ScheduledPacket A) → ℕ
  scheduled_bytes [] = 0
  scheduled_bytes (q ∷ qs) = q.packet.size + scheduled_bytes qs

  -- All the bytes that an emission lets out, at once or later.
  abbrev pub emission_bytes : PacketEffectEmission A → ℕ
  emission_bytes e = packet_bytes e.immediate_packets + scheduled_bytes e.scheduled_packets

  abbrev pub total_bytes : List (PacketEffectEmission A) → ℕ
  total_bytes [] = 0
  total_bytes (e ∷ es) = emission_bytes e + total_bytes es

  pub packet_bytes_same :
      (packet : OwnedPacket A) (ps : List (OwnedPacket A))
      → All (λ p. p ≡ packet) ps
      → packet_bytes ps ≡ length ps * packet.size
  packet_bytes_same packet [] h = omega arith
  packet_bytes_same packet (p ∷ ps) h = rw h.0 (omega (arith, packet_bytes_same packet ps h.1))

  pub scheduled_bytes_same :
      (packet : OwnedPacket A) (qs : List (ScheduledPacket A))
      → All (λ q. q.packet ≡ packet) qs
      → scheduled_bytes qs ≡ length qs * packet.size
  scheduled_bytes_same packet [] h = omega arith
  scheduled_bytes_same packet (q ∷ qs) h =
      rw h.0 (omega (arith, scheduled_bytes_same packet qs h.1))

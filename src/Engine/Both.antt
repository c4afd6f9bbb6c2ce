-- ===== src/Engine/Both.antt =====
-- `PacketEffectEngine`: one engine for each direction.
use scrambler.Prelude.{ℕ, Bool, true, false}
use scrambler.PacketData.{OwnedPacket}
use scrambler.Rates.{Float, Random}
use scrambler.Config.Effects.{EffectConfig}
use scrambler.Engine.Emission.{PacketEffectEmission}
use scrambler.Engine.Direction
use scrambler.Engine.Direction.{DirectionPacketEffectEngine}

pub record PacketEffectEngine (G : Type 0) : Type 0 where
  pub outbound : DirectionPacketEffectEngine G
  pub inbound : DirectionPacketEffectEngine G

-- The engine of a direction.
abbrev pub engine_for : {G : Type 0} → PacketEffectEngine G → Bool → DirectionPacketEffectEngine G
engine_for e true = e.outbound
engine_for e false = e.inbound

module _ {A F G : Type 0} ⦃f : Float F⦄ ⦃r : Random F G⦄ where
  -- By the packet's direction.
  abbrev process_direction :
      Bool
      → EffectConfig F
      → PacketEffectEngine G
      → OwnedPacket A
      → ℕ
      → PacketEffectEmission A × PacketEffectEngine G
  process_direction true effects e packet now =
      let (emission, outbound) = Direction.process effects.outbound e.outbound packet now in
      (emission, record e { outbound = outbound })
  process_direction false effects e packet now =
      let (emission, inbound) = Direction.process effects.inbound e.inbound packet now in
      (emission, record e { inbound = inbound })

  unfoldable pub process :
      EffectConfig F
      → PacketEffectEngine G
      → OwnedPacket A
      → ℕ
      → PacketEffectEmission A × PacketEffectEngine G
  process effects e packet now = process_direction packet.metadata.is_outbound effects e packet now

-- ===== src/Interceptor/Capture.antt =====
-- What `PacketInterceptor::CaptureLoop` works on: the parts of the program that it calls, its
-- outgoing batch and its share of the counters.
use scrambler.Prelude.{
  ℕ, ◌+◌, Bool, true, false, Option, List, ◌∷◌, [], ◌++◌, ltb, if◌then◌else◌, length,
}
use scrambler.Types.{Parsed, standard_mtu_size}
use scrambler.Config.Effects.{EffectConfig}
use scrambler.Targets.{TargetPidSet}
use scrambler.Flow.Tracker.{FlowTracker, UdpRow}
use scrambler.Engine.Both.{PacketEffectEngine}

-- The calls of WinDivert and the byte order conversions. A call that sends takes the bytes, an
-- address or several, and the driver, and says if it succeeded. What `parse` finds after the first
-- packet is the end of the buffer, never longer than it.
pub record WinDivert (A D : Type 0) : Type 0 where
  pub ntohl : ℕ → ℕ
  pub ntohs : ℕ → ℕ
  pub parse : List ℕ → Option Parsed
  pub is_outbound : A → Bool
  pub send : List ℕ → A → D → Bool × D
  pub send_ex : List ℕ → List A → D → Bool × D

-- A counter for each direction.
pub record PerDirection : Type 0 where
  pub outbound : ℕ
  pub inbound : ℕ

abbrev pub add_to : Bool → ℕ → PerDirection → PerDirection
add_to true n p = record p { outbound = p.outbound + n }
add_to false n p = record p { inbound = p.inbound + n }

pub record Counts : Type 0 where
  pub captured : PerDirection
  pub dropped : PerDirection
  pub delayed : PerDirection
  pub duplicated : PerDirection
  pub oversized : ℕ
  pub parse_failures : ℕ
  pub reinjected : ℕ
  pub reinject_failures : ℕ
  pub driver_errors : ℕ

-- An address of the batch, with what the loop reads when it comes to its packet: the clock, the
-- system's UDP table, and the targets and effects that the window has set.
pub record Turn (A F : Type 0) : Type 0 where
  pub addr : A
  pub now : ℕ
  pub table : Option (List UdpRow)
  pub targets : TargetPidSet
  pub effects : EffectConfig F

-- `send_buf` and `send_addrs` are the batch of what goes out at once.
pub record Capture (A G H Q : Type 0) : Type 0 where
  pub tracker : FlowTracker H
  pub engine : PacketEffectEngine G
  pub queue : Q
  pub send_buf : List ℕ
  pub send_addrs : List A
  pub counts : Counts

-- `append_immediate_packet`, less its result, which no caller reads.
unfoldable pub append_immediate_packet :
    {A G H Q : Type 0} → List ℕ → A → Capture A G H Q → Capture A G H Q
append_immediate_packet packet_data packet_addr c =
    if ltb standard_mtu_size (length packet_data)
    then record c { counts = record c.counts { oversized = c.counts.oversized + 1 } }
    else record c {
      send_buf = c.send_buf ++ packet_data;
      send_addrs = c.send_addrs ++ packet_addr ∷ [];
    }

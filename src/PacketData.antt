-- ===== src/PacketData.antt =====
-- include/core/PacketData.h: a packet that owns its bytes, and one with a release time. The type
-- `A` of WINDIVERT_ADDRESS is a parameter; a time point is its count of nanoseconds.
use scrambler.Prelude.{
  ℕ, ◌≤◌, ◌<◌, ◌≡◌, refl, ◌⊎◌, inl, inr, Bool, Option, none, some, List, ◌++◌, ltb, if◌then◌else◌,
  Bool-cases, length, take, drop, replicate, length-append, length-replicate, length-drop,
  take-length-append, arith,
}
use scrambler.Types.{FiveTuple, standard_mtu_size}
mod Tests

pub record PacketMetadata : Type 0 where
  pub tuple : FiveTuple
  pub pid : ℕ
  pub is_outbound : Bool

-- `bytes` is the whole array of `standard_mtu_size` bytes, of which the first `length` count.
pub record OwnedPacket (A : Type 0) : Type 0 where
  pub buffer : List ℕ
  pub size : ℕ
  pub addr : A
  pub metadata : PacketMetadata

pub record ScheduledPacket (A : Type 0) : Type 0 where
  pub packet : OwnedPacket A
  pub release_at : ℕ

pub zero_buffer : List ℕ
zero_buffer = replicate standard_mtu_size 0

length-zero_buffer : length zero_buffer ≡ standard_mtu_size
unfolding zero_buffer
length-zero_buffer = length-replicate {A = ℕ} standard_mtu_size 0

-- `memcpy` of all of `src` to the start of `dst`.
overwrite : List ℕ → List ℕ → List ℕ
overwrite src dst = src ++ drop (length src) dst

length-overwrite :
    (src dst : List ℕ) → length src ≤ length dst → length (overwrite src dst) ≡ length dst
unfolding overwrite
length-overwrite src dst h =
    omega (arith, length-append src (drop (length src) dst), length-drop (length src) dst)

module _ {A : Type 0} where
  -- `Bytes`
  unfoldable pub bytes : OwnedPacket A → List ℕ
  bytes p = take p.size p.buffer

  -- `CopyFrom`
  unfoldable pub copy_from : List ℕ → A → PacketMetadata → Option (OwnedPacket A)
  unfolding overwrite
  copy_from packet_data addr metadata =
      if ltb standard_mtu_size (length packet_data)
      then none
      else some (record {
        buffer = overwrite packet_data zero_buffer;
        size = length packet_data;
        addr = addr;
        metadata = metadata;
      })

  -- What a copy of the bytes holds: all of them, in a full buffer, with address and metadata.
  pub record IsCopy (packet_data : List ℕ) (addr : A) (metadata : PacketMetadata)
      (p : OwnedPacket A) : Type 0 where
    pub same_bytes : bytes p ≡ packet_data
    pub same_addr : p.addr ≡ addr
    pub same_metadata : p.metadata ≡ metadata
    pub same_size : p.size ≡ length packet_data
    pub full_buffer : length p.buffer ≡ standard_mtu_size

  -- `CopyFrom` refuses exactly the data longer than the MTU, and otherwise returns a packet whose
  -- `Bytes` are the data, with the address and the metadata given.
  pub copy_from_lem :
      (packet_data : List ℕ) (addr : A) (metadata : PacketMetadata)
      → ((standard_mtu_size < length packet_data) × (copy_from packet_data addr metadata ≡ none))
        ⊎ ((length packet_data ≤ standard_mtu_size)
            × ((p : OwnedPacket A) × (copy_from packet_data addr metadata ≡ some p)
                × IsCopy packet_data addr metadata p))
  unfolding copy_from bytes
  copy_from_lem packet_data addr metadata =
      elim (Bool-cases (ltb standard_mtu_size (length packet_data))) [
        | inl big ↦ inl (ground arith, ground arith)
        | inr fits ↦ inr (
          ground arith,
          (
            _,
            ground arith,
            record {
              same_bytes = take-length-append packet_data (drop (length packet_data) zero_buffer);
              same_addr = refl;
              same_metadata = refl;
              same_size = refl;
              full_buffer = omega (
                arith,
                length-overwrite packet_data zero_buffer (ground (arith, length-zero_buffer)),
                length-zero_buffer,
              );
            },
          ),
        )
      ]

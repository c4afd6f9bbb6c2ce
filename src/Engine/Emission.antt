-- ===== src/Engine/Emission.antt =====
-- `PacketEffectKind` and `PacketEffectEmission`: the mask of applied effects, one bit for each
-- kind, and the packets that go out at once or later.
use scrambler.Prelude.{
  ℕ, ◌+◌, ◌<◌, ◌≡◌, refl, Bool, true, false, not, ◌||◌, ◌&&◌, List, [], ◌∷◌, ◌++◌, ◌==◌, ltb,
  bit_and, bit_or, length, all_below, all_below_sound, arith,
}
use scrambler.PacketData.{OwnedPacket, ScheduledPacket}

pub data PacketEffectKind : Type 0 where
  drop delay duplicate bandwidth_throttle burst_drop delay_jitter : PacketEffectKind

unfoldable pub to_mask : PacketEffectKind → ℕ
to_mask drop = 1
to_mask delay = 2
to_mask duplicate = 4
to_mask bandwidth_throttle = 8
to_mask burst_drop = 16
to_mask delay_jitter = 32

-- `mask |= ToMask(kind)` and `(mask & ToMask(kind)) != 0`, on a byte.
unfoldable pub mark : ℕ → PacketEffectKind → ℕ
unfolding to_mask
mark mask kind = bit_or mask (to_mask kind)

unfoldable pub has_mark : ℕ → PacketEffectKind → Bool
unfolding to_mask
has_mark mask kind = not (bit_and mask (to_mask kind) == 0)

pub record PacketEffectEmission (A : Type 0) : Type 0 where
  pub applied_effects : ℕ
  pub immediate_packets : List (OwnedPacket A)
  pub scheduled_packets : List (ScheduledPacket A)

module _ {A : Type 0} where
  abbrev pub no_emission : PacketEffectEmission A
  no_emission = record { applied_effects = 0; immediate_packets = []; scheduled_packets = [] }

  abbrev pub add_effect : PacketEffectKind → PacketEffectEmission A → PacketEffectEmission A
  add_effect kind e = record e { applied_effects = mark e.applied_effects kind }

  unfoldable pub add_immediate : OwnedPacket A → PacketEffectEmission A → PacketEffectEmission A
  add_immediate packet e = record e { immediate_packets = e.immediate_packets ++ (packet ∷ []) }

  unfoldable pub add_scheduled : OwnedPacket A → ℕ → PacketEffectEmission A → PacketEffectEmission A
  add_scheduled packet release_at e = record e {
    scheduled_packets =
        e.scheduled_packets ++ (record { packet = packet; release_at = release_at } ∷ []);
  }

  abbrev pub has_effect : PacketEffectEmission A → PacketEffectKind → Bool
  has_effect e kind = has_mark e.applied_effects kind

  abbrev pub immediate_count : PacketEffectEmission A → ℕ
  immediate_count e = length e.immediate_packets

  abbrev pub scheduled_count : PacketEffectEmission A → ℕ
  scheduled_count e = length e.scheduled_packets

  abbrev pub total_emitted_count : PacketEffectEmission A → ℕ
  total_emitted_count e = immediate_count e + scheduled_count e

abbrev pub same_kind : PacketEffectKind → PacketEffectKind → Bool
same_kind drop drop = true
same_kind delay delay = true
same_kind duplicate duplicate = true
same_kind bandwidth_throttle bandwidth_throttle = true
same_kind burst_drop burst_drop = true
same_kind delay_jitter delay_jitter = true
same_kind _ _ = false

abbrev same_bool : Bool → Bool → Bool
same_bool true b = b
same_bool false b = not b

same_bool-true : (a b : Bool) → same_bool a b ≡ true → a ≡ b
same_bool-true a b h = ground arith

abbrev mark_law : PacketEffectKind → PacketEffectKind → ℕ → Bool
mark_law j k m =
    ltb (mark m j) 256 && same_bool (has_mark (mark m j) k) (same_kind j k || has_mark m k)

mark_table : (j k : PacketEffectKind) → all_below 256 (mark_law j k) ≡ true
unfolding all_below mark has_mark
mark_table drop drop = refl
mark_table drop _ = refl
mark_table delay drop = refl
mark_table delay _ = refl
mark_table duplicate drop = refl
mark_table duplicate _ = refl
mark_table bandwidth_throttle drop = refl
mark_table bandwidth_throttle _ = refl
mark_table burst_drop drop = refl
mark_table burst_drop _ = refl
mark_table delay_jitter drop = refl
mark_table delay_jitter _ = refl

-- On a byte, the bit of a kind is set by marking that kind, and by no other marking.
pub has_mark-mark :
    (m : ℕ) (j k : PacketEffectKind)
    → m < 256
    → (mark m j < 256) × (has_mark (mark m j) k ≡ same_kind j k || has_mark m k)
has_mark-mark m j k h = ground (
  arith,
  all_below_sound 256 (mark_law j k) m (mark_table j k) h,
  same_bool-true (has_mark (mark m j) k) (same_kind j k || has_mark m k),
)

-- ===== src/PacketData/Tests.antt =====
-- A copy of three bytes.
use scrambler.Prelude.{ℕ, ◌≡◌, true, some, [], ◌∷◌, drop, refl}
use scrambler.PacketData.{PacketMetadata, copy_from, zero_buffer}

abbrev metadata : PacketMetadata
metadata = record {
  tuple = record { src_addr = 1; dst_addr = 2; src_port = 3; dst_port = 4; protocol = 17 };
  pid = 42;
  is_outbound = true;
}

-- The buffer keeps its zeros after the three bytes.
copied :
    copy_from {A = ℕ} (1 ∷ 2 ∷ 3 ∷ []) 7 metadata
    ≡ some (record {
      buffer = 1 ∷ 2 ∷ 3 ∷ drop 3 zero_buffer;
      size = 3;
      addr = 7;
      metadata = metadata;
    })
unfolding copy_from
copied = refl

-- ===== src/Samples.antt =====
-- Values for the parameters, to run the model on: floats as thousandths, with `none` for NaN, a
-- generator that counts, and one packet.
use scrambler.Prelude.{ℕ, ◌+◌, ◌%◌, Bool, true, false, Option, some, [], ◌∷◌, ltb, leb, arith}
use scrambler.Types.{FiveTuple}
use scrambler.Startup.{WindowsErrors}
use scrambler.PacketData.{PacketMetadata, OwnedPacket}
use scrambler.Rates.{Float, IsOrdered, Random, IsUniform}

abbrev pub Milli : Type 0
Milli = Option ℕ

abbrev on_numbers : (ℕ → ℕ → Bool) → Milli → Milli → Bool
on_numbers f (some a) (some b) = f a b
on_numbers f _ _ = false

instance abbrev pub milli_float : Float Milli
milli_float = record { nought = some 0; one = some 1000; lt = on_numbers ltb; le = on_numbers leb }

pub Milli-IsOrdered : IsOrdered Milli
Milli-IsOrdered = ground arith

instance abbrev pub counting_random : Random Milli ℕ
counting_random = record {
  uniform_real = λ g. (some (g % 1000), g + 1);
  uniform_int = λ n g. (g % (n + 1), g + 1);
}

pub counting-IsUniform : IsUniform Milli ℕ
counting-IsUniform = record { uniform_int-le = λ n g. omega arith }

abbrev pub sample_tuple : FiveTuple
sample_tuple = record {
  src_addr = 0x0a00_0001;
  dst_addr = 0x0808_0808;
  src_port = 5000;
  dst_port = 53;
  protocol = 17;
}

abbrev pub sample_metadata : Bool → PacketMetadata
sample_metadata out = record { tuple = sample_tuple; pid = 42; is_outbound = out }

-- A packet of three bytes; an address is a number.
abbrev pub sample_packet : OwnedPacket ℕ
sample_packet = record {
  buffer = 1 ∷ 2 ∷ 3 ∷ [];
  size = 3;
  addr = 7;
  metadata = sample_metadata true;
}

-- The error codes of Windows.
abbrev pub codes : WindowsErrors
codes = record {
  access_denied = 5;
  file_not_found = 2;
  service_does_not_exist = 1060;
  no_data = 232;
  invalid_handle = 6;
  operation_aborted = 995;
}

-- A byte order that is that of the network.
abbrev pub same : ℕ → ℕ
same n = n

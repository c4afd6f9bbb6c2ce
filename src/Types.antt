-- ===== src/Types.antt =====
-- include/core/Types.h: the five-tuple that names a flow, its reversal, and its hash.
use scrambler.Prelude.{
  Option, none, some, List, ℕ, ◌+◌, ◌*◌, ◌/◌, ◌%◌, ◌^◌, ◌≡◌, refl, Bool, true, ◌&&◌, ◌==◌, bit_xor,
  arith,
}

abbrev pub golden_ratio : ℕ
golden_ratio = 0x9e3779b9

abbrev pub system_pid : ℕ
system_pid = 4

abbrev pub standard_mtu_size : ℕ
standard_mtu_size = 1500

abbrev pub delay_queue_capacity : ℕ
delay_queue_capacity = 4096

abbrev pub max_consecutive_recv_failures : ℕ
max_consecutive_recv_failures = 32

pub record FiveTuple : Type 0 where
  pub src_addr : ℕ
  pub dst_addr : ℕ
  pub src_port : ℕ
  pub dst_port : ℕ
  pub protocol : ℕ

unfoldable pub reversed : FiveTuple → FiveTuple
reversed t = record {
  src_addr = t.dst_addr;
  dst_addr = t.src_addr;
  src_port = t.dst_port;
  dst_port = t.src_port;
  protocol = t.protocol;
}

-- The defaulted `operator==`, field by field.
unfoldable pub tuple_eq : FiveTuple → FiveTuple → Bool
tuple_eq t u =
    t.src_addr == u.src_addr
    && (t.dst_addr == u.dst_addr
        && (t.src_port == u.src_port && (t.dst_port == u.dst_port && t.protocol == u.protocol)))

pub tuple_eq_refl : (t : FiveTuple) → tuple_eq t t ≡ true
unfolding tuple_eq
tuple_eq_refl t = ground arith

pub tuple_eq-true : (t u : FiveTuple) → tuple_eq t u ≡ true → t ≡ u
unfolding tuple_eq
tuple_eq-true t u h = ground arith

pub reversed-reversed : (t : FiveTuple) → reversed (reversed t) ≡ t
unfolding reversed
reversed-reversed t = refl

-- `FiveTupleHash`, over the standard library's hash of an unsigned integer; `size_t` has 64 bits.
module _ (std_hash : ℕ → ℕ) where
  unfoldable pub combine : ℕ → ℕ → ℕ
  combine s v = bit_xor s ((std_hash v + golden_ratio + s * 64 % 2 ^ 64 + s / 4) % 2 ^ 64)

  unfoldable pub five_tuple_hash : FiveTuple → ℕ
  unfolding combine
  five_tuple_hash t =
      combine (combine (combine (combine (combine 0 t.src_addr) t.dst_addr) t.src_port) t.dst_port)
        t.protocol

-- What is read of WINDIVERT_ADDRESS on the flow layer; of the IPv4 addresses, the first element.
pub record FlowData : Type 0 where
  pub local_addr : ℕ
  pub remote_addr : ℕ
  pub local_port : ℕ
  pub remote_port : ℕ
  pub protocol : ℕ

unfoldable pub tuple_from_flow : FlowData → FiveTuple
tuple_from_flow flow = record {
  src_addr = flow.local_addr;
  dst_addr = flow.remote_addr;
  src_port = flow.local_port;
  dst_port = flow.remote_port;
  protocol = flow.protocol;
}

-- What is read of WINDIVERT_IPHDR and WINDIVERT_UDPHDR, in network byte order.
pub record IpHeader : Type 0 where
  pub src_addr : ℕ
  pub dst_addr : ℕ
  pub protocol : ℕ

pub record UdpHeader : Type 0 where
  pub src_port : ℕ
  pub dst_port : ℕ

module _ (ntohl ntohs : ℕ → ℕ) where
  unfoldable pub tuple_from_packet : IpHeader → UdpHeader → FiveTuple
  tuple_from_packet ip udp = record {
    src_addr = ntohl ip.src_addr;
    dst_addr = ntohl ip.dst_addr;
    src_port = ntohs udp.src_port;
    dst_port = ntohs udp.dst_port;
    protocol = ip.protocol;
  }

-- What WinDivertHelperParsePacket finds in a buffer, if it succeeds: the headers that are there,
-- and how many bytes follow the first packet.
pub record Parsed : Type 0 where
  pub ip : Option IpHeader
  pub udp : Option UdpHeader
  pub next_len : ℕ

-- `ParseUdpPacket`: both headers, or nothing.
unfoldable pub parse_udp_packet : (List ℕ → Option Parsed) → List ℕ → Option (IpHeader × UdpHeader)
parse_udp_packet parse data_bytes = elim (parse data_bytes) [
  | none ↦ none
  | some found ↦ elim found.ip [
    | none ↦ none
    | some ip ↦ elim found.udp [ none ↦ none | some udp ↦ some (ip, udp) ]
  ]
]

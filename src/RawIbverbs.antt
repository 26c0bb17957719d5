-- ===== src/RawIbverbs.antt =====
-- raw_ibverbs.c: the InfiniBand packet of the raw sender and its checksums.
pub mod Image
pub mod Checksum
pub mod Headers
pub mod Wire
pub mod Send
pub mod EndToEnd
pub mod Program
pub mod Shown
mod Tests
use ibverb_prototype.Prelude.{
  ℕ, ◌+◌, ◌-◌, ◌*◌, ◌%◌, ◌^◌, Option, some, ◌>>=◌, List, replicate, bits, htons, htonl, ntohs,
  memcpy,
}
use ibverb_prototype.Crc.{crc32}
use ibverb_prototype.LookupAddr.{Addr}
use ibverb_prototype.Packet.{
  IbGrh, IbBth, IbHeaders, Packet, grh_bytes, bth_bytes, deth_bytes, msg_size,
}

-- `checksum_size`, `ib_transport_header_size` and `total_header_size`.
abbrev pub checksum_size : ℕ
checksum_size = 4

abbrev pub ib_transport_header_size : ℕ
ib_transport_header_size = 12 + 8

abbrev pub total_header_size : ℕ
total_header_size = 14 + 60

-- `~0`, an `int` of which a member keeps its low bits.
abbrev pub ones : ℕ
ones = 2 ^ 32 - 1

-- The copies of the headers in `ib_header_checksum`, with the fields that it sets.
unfoldable pub masked_grh : IbGrh → IbGrh
masked_grh g = record g {
  traffic_class_p1 = bits 4 ones;
  traffic_class_p2 = bits 4 ones;
  flow_label = bits 20 ones;
  hop_limit = bits 8 ones;
}

unfoldable pub masked_bth : IbBth → IbBth
masked_bth b = record b { reserved1 = bits 8 ones }

-- `ib_header_checksum`. The `uint64_t` that starts it is all ones.
unfoldable pub ib_header_checksum : IbHeaders → Option ℕ
unfolding masked_grh masked_bth
ib_header_checksum h = do
  c₁ ← crc32 0 (replicate 8 0xff) 8
  c₂ ← crc32 c₁ (grh_bytes (masked_grh h.grh)) 40
  c₃ ← crc32 c₂ (bth_bytes (masked_bth h.bth)) 12
  crc32 c₃ (deth_bytes h.deth) 8

-- `data_length` in `ib_checksum`, a `size_t`.
unfoldable pub data_length : Packet → ℕ
data_length p =
    (ntohs p.ib_header.grh.payload_length + 2 ^ 64 - (ib_transport_header_size + checksum_size))
    % 2 ^ 64

-- `ib_checksum`, without what it prints.
unfoldable pub ib_checksum : Packet → Option ℕ
unfolding data_length
ib_checksum p = do crc ← ib_header_checksum p.ib_header; crc32 crc p.payload (data_length p)

-- `full_packet`, static storage that starts as zeros.
unfoldable pub full_packet : Packet
full_packet = record {
  ether_header = record { h_dest = replicate 6 0; h_source = replicate 6 0; h_proto = 0 };
  ib_header = record {
    grh = record {
      traffic_class_p1 = 0;
      ip_version = 0;
      traffic_class_p2 = 0;
      flow_label = 0;
      payload_length = 0;
      next_header = 0;
      hop_limit = 0;
      source = replicate 16 0;
      dest = replicate 16 0;
    };
    bth = record {
      opcode = 0;
      transport_hdr_version = 0;
      pad_count = 0;
      migration_request = 0;
      sollicited_event = 0;
      partition_key = 0;
      reserved1 = 0;
      destination_qp = 0;
      acknowledge_req = 0;
      reserved2 = 0;
      packet_sequence = 0;
    };
    deth = record { queue_key = 0; reserved = 0; source_qp = 0 };
  };
  payload = replicate msg_size 0;
}

-- The assignments of `init_invariant_headers`. A `uint32_t` holds `ib_length` and `qp << 8`.
unfoldable pub set_headers : Packet → Addr → Addr → ℕ → Packet
set_headers p src dest qp =
    let eth = p.ether_header in
    let hdr = p.ib_header in
    let grh = p.ib_header.grh in
    let bth = p.ib_header.bth in
    let deth = p.ib_header.deth in
    let ib_length : ℕ = msg_size + ib_transport_header_size + checksum_size in
    record p {
      ether_header = record eth {
        h_proto = htons 0x8915;
        h_dest = memcpy eth.h_dest dest.mac 6;
        h_source = memcpy eth.h_source src.mac 6;
      };
      ib_header = record hdr {
        grh = record grh {
          ip_version = bits 4 6;
          next_header = bits 8 27;
          hop_limit = bits 8 1;
          source = memcpy grh.source src.ipv6 16;
          dest = memcpy grh.dest dest.ipv6 16;
          payload_length = htons ib_length;
        };
        bth = record bth {
          opcode = bits 8 0x64;
          sollicited_event = bits 1 0;
          migration_request = bits 1 1;
          partition_key = htons 0xffff;
          destination_qp = bits 24 (htonl (bits 32 (qp * 2 ^ 8)));
        };
        deth = record deth {
          queue_key = htonl 0x11111111;
          source_qp = bits 24 (htonl (0x182 * 2 ^ 8));
        };
      };
    }

-- `init_invariant_headers`: the packet afterwards, and the checksum that it returns.
unfoldable pub init_invariant_headers : Packet → Addr → Addr → ℕ → Option (ℕ × Packet)
unfolding set_headers
init_invariant_headers p src dest qp =
    let q = set_headers p src dest qp in ib_header_checksum q.ib_header >>= λ crc. some (crc, q)

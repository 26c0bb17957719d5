-- ===== src/Packet.antt =====
-- raw_packet.h: the InfiniBand headers and the packet, as structs and as the bytes that a
-- little-endian host keeps of them. A field holds what the C member reads as; bit fields are
-- laid out from the lowest bit up, and the structs are packed.
pub mod Layout
pub mod Print
use ibverb_prototype.Prelude.{ℕ, ◌+◌, ◌*◌, ◌^◌, List, [], ◌∷◌, ◌++◌, le_bytes}

-- `MSG_SIZE` of constants.h.
abbrev pub msg_size : ℕ
msg_size = 8940

-- `struct ib_grh`, the Global Routing Header.
pub record IbGrh : Type 0 where
  pub traffic_class_p1 : ℕ
  pub ip_version : ℕ
  pub traffic_class_p2 : ℕ
  pub flow_label : ℕ
  pub payload_length : ℕ
  pub next_header : ℕ
  pub hop_limit : ℕ
  pub source : List ℕ
  pub dest : List ℕ

-- `struct ib_bth`, the Base Transport Header.
pub record IbBth : Type 0 where
  pub opcode : ℕ
  pub transport_hdr_version : ℕ
  pub pad_count : ℕ
  pub migration_request : ℕ
  pub sollicited_event : ℕ
  pub partition_key : ℕ
  pub reserved1 : ℕ
  pub destination_qp : ℕ
  pub acknowledge_req : ℕ
  pub reserved2 : ℕ
  pub packet_sequence : ℕ

-- `struct ib_deth`, the Datagram Extended Transport Header.
pub record IbDeth : Type 0 where
  pub queue_key : ℕ
  pub reserved : ℕ
  pub source_qp : ℕ

-- `struct ib_headers`.
pub record IbHeaders : Type 0 where
  pub grh : IbGrh
  pub bth : IbBth
  pub deth : IbDeth

-- `struct ethhdr` of the system's headers.
pub record EthHdr : Type 0 where
  pub h_dest : List ℕ
  pub h_source : List ℕ
  pub h_proto : ℕ

-- `struct packet`.
pub record Packet : Type 0 where
  pub ether_header : EthHdr
  pub ib_header : IbHeaders
  pub payload : List ℕ

-- The bytes of each struct, in memory and on the wire.
unfoldable pub grh_words : IbGrh → List ℕ
grh_words g =
    le_bytes 4 (
      g.traffic_class_p1
      + g.ip_version * 2 ^ 4
      + g.traffic_class_p2 * 2 ^ 8
      + g.flow_label * 2 ^ 12)
    ++ (le_bytes 2 g.payload_length ++ (g.next_header ∷ g.hop_limit ∷ []))

unfoldable pub grh_bytes : IbGrh → List ℕ
unfolding grh_words
grh_bytes g = grh_words g ++ (g.source ++ g.dest)

unfoldable pub bth_bytes : IbBth → List ℕ
bth_bytes b =
    b.opcode
    ∷ (b.transport_hdr_version
        + b.pad_count * 2 ^ 4
        + b.migration_request * 2 ^ 6
        + b.sollicited_event * 2 ^ 7)
    ∷ (le_bytes 2 b.partition_key
        ++ (le_bytes 4 (b.reserved1 + b.destination_qp * 2 ^ 8)
            ++ le_bytes 4 (b.acknowledge_req + b.reserved2 * 2 ^ 1 + b.packet_sequence * 2 ^ 8)))

unfoldable pub deth_bytes : IbDeth → List ℕ
deth_bytes d = le_bytes 4 d.queue_key ++ le_bytes 4 (d.reserved + d.source_qp * 2 ^ 8)

unfoldable pub header_bytes : IbHeaders → List ℕ
unfolding grh_bytes bth_bytes deth_bytes
header_bytes h = grh_bytes h.grh ++ (bth_bytes h.bth ++ deth_bytes h.deth)

unfoldable pub eth_bytes : EthHdr → List ℕ
eth_bytes e = e.h_dest ++ (e.h_source ++ le_bytes 2 e.h_proto)

unfoldable pub packet_bytes : Packet → List ℕ
unfolding header_bytes eth_bytes
packet_bytes p = eth_bytes p.ether_header ++ (header_bytes p.ib_header ++ p.payload)

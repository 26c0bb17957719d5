-- ===== src/Packet/Layout.antt =====
-- Well-formed structs: each member in its range, each array of its length. Their sizes.
use ibverb_prototype.Prelude.{
  ℕ, ◌+◌, ◌^◌, ◌<◌, ◌≡◌, refl, arith, List, ◌++◌, length, length-append, All, All-append, le_bytes,
  le_bytes-All,
}
use ibverb_prototype.Crc.Correct.{IsByte}
use ibverb_prototype.Packet.{
  IbGrh, IbBth, IbDeth, IbHeaders, EthHdr, Packet, grh_words, grh_bytes, bth_bytes, deth_bytes,
  header_bytes, eth_bytes, packet_bytes, msg_size,
}

-- An array of n bytes.
abbrev pub IsArray : ℕ → List ℕ → Type 0
IsArray n xs = (length xs ≡ n) × All IsByte xs

pub record IsGrh (g : IbGrh) : Type 0 where
  pub traffic_class_p1 : g.traffic_class_p1 < 2 ^ 4
  pub ip_version : g.ip_version < 2 ^ 4
  pub traffic_class_p2 : g.traffic_class_p2 < 2 ^ 4
  pub flow_label : g.flow_label < 2 ^ 20
  pub payload_length : g.payload_length < 2 ^ 16
  pub next_header : g.next_header < 2 ^ 8
  pub hop_limit : g.hop_limit < 2 ^ 8
  pub source : IsArray 16 g.source
  pub dest : IsArray 16 g.dest

pub record IsBth (b : IbBth) : Type 0 where
  pub opcode : b.opcode < 2 ^ 8
  pub transport_hdr_version : b.transport_hdr_version < 2 ^ 4
  pub pad_count : b.pad_count < 2 ^ 2
  pub migration_request : b.migration_request < 2
  pub sollicited_event : b.sollicited_event < 2
  pub partition_key : b.partition_key < 2 ^ 16
  pub reserved1 : b.reserved1 < 2 ^ 8
  pub destination_qp : b.destination_qp < 2 ^ 24
  pub acknowledge_req : b.acknowledge_req < 2
  pub reserved2 : b.reserved2 < 2 ^ 7
  pub packet_sequence : b.packet_sequence < 2 ^ 24

pub record IsDeth (d : IbDeth) : Type 0 where
  pub queue_key : d.queue_key < 2 ^ 32
  pub reserved : d.reserved < 2 ^ 8
  pub source_qp : d.source_qp < 2 ^ 24

pub record IsHeaders (h : IbHeaders) : Type 0 where
  pub grh : IsGrh h.grh
  pub bth : IsBth h.bth
  pub deth : IsDeth h.deth

pub record IsPacket (p : Packet) : Type 0 where
  pub h_dest : IsArray 6 p.ether_header.h_dest
  pub h_source : IsArray 6 p.ether_header.h_source
  pub h_proto : p.ether_header.h_proto < 2 ^ 16
  pub headers : IsHeaders p.ib_header
  pub payload : IsArray msg_size p.payload

pub IsArray-append :
    (m n : ℕ) (xs ys : List ℕ) → IsArray m xs → IsArray n ys → IsArray (m + n) (xs ++ ys)
IsArray-append m n xs ys a b = (omega (arith, length-append xs ys), All-append IsByte xs ys a.1 b.1)

-- The packed sizes: 40, 12 and 8 bytes.
pub grh_bytes-IsArray : (g : IbGrh) → IsGrh g → IsArray 40 (grh_bytes g)
unfolding grh_bytes
grh_bytes-IsArray g w =
    IsArray-append 8 32 (grh_words g) (g.source ++ g.dest) (omega arith)
      (IsArray-append 16 16 g.source g.dest w.source w.dest)

pub bth_bytes-IsArray : (b : IbBth) → IsBth b → IsArray 12 (bth_bytes b)
unfolding bth_bytes
bth_bytes-IsArray b w = omega arith

pub deth_bytes-IsArray : (d : IbDeth) → IsDeth d → IsArray 8 (deth_bytes d)
unfolding deth_bytes
deth_bytes-IsArray d w = omega arith

pub header_bytes-IsArray : (h : IbHeaders) → IsHeaders h → IsArray 60 (header_bytes h)
unfolding header_bytes
header_bytes-IsArray h w =
    IsArray-append 40 20 (grh_bytes h.grh) (bth_bytes h.bth ++ deth_bytes h.deth)
      (grh_bytes-IsArray h.grh w.grh)
      (IsArray-append 12 8 (bth_bytes h.bth) (deth_bytes h.deth) (bth_bytes-IsArray h.bth w.bth)
        (deth_bytes-IsArray h.deth w.deth))

pub eth_bytes-IsArray :
    (e : EthHdr) → IsArray 6 e.h_dest → IsArray 6 e.h_source → IsArray 14 (eth_bytes e)
unfolding eth_bytes
eth_bytes-IsArray e d s =
    IsArray-append 6 8 e.h_dest (e.h_source ++ le_bytes 2 e.h_proto) d
      (IsArray-append 6 2 e.h_source (le_bytes 2 e.h_proto) s (refl, le_bytes-All 2 e.h_proto))

-- A packet is 14 + 60 + 8940 bytes.
pub packet_bytes-IsArray : (p : Packet) → IsPacket p → IsArray (74 + msg_size) (packet_bytes p)
unfolding packet_bytes
packet_bytes-IsArray p w =
    IsArray-append 14 9000 (eth_bytes p.ether_header) (header_bytes p.ib_header ++ p.payload)
      (eth_bytes-IsArray p.ether_header w.h_dest w.h_source)
      (IsArray-append 60 msg_size (header_bytes p.ib_header) p.payload
        (header_bytes-IsArray p.ib_header w.headers) w.payload)

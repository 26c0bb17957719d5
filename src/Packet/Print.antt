-- ===== src/Packet/Print.antt =====
-- raw_packet.c: what the print functions show of a header. A shown value is what `printf` renders:
-- a number in decimal or hexadecimal, or an address that `inet_ntop` renders.
use Prim.Native.String.{String}
use ibverb_prototype.Prelude.{ℕ, ◌/◌, ◌^◌, List, [], ◌∷◌, ◌++◌, ntohs, ntohl}
use ibverb_prototype.Packet.{IbGrh, IbBth, IbDeth, IbHeaders}

pub data Shown : Type 0 where
  dec : ℕ → Shown
  hex : ℕ → Shown
  ip : List ℕ → Shown

-- A line of output: its label and its value. An empty line is a label with no value.
pub data Line : Type 0 where
  line : String → Shown → Line
  blank : Line

-- `print_grh`
unfoldable pub print_grh : IbGrh → List Line
print_grh hdr =
    line "IP Version" (dec hdr.ip_version)
    ∷ line "Traffic class 1" (hex hdr.traffic_class_p1)
    ∷ line "Traffic class 2" (hex hdr.traffic_class_p2)
    ∷ line "Flow label" (hex hdr.flow_label)
    ∷ line "Length" (dec (ntohs hdr.payload_length))
    ∷ line "Next header" (dec hdr.next_header)
    ∷ line "Hop limit" (dec hdr.hop_limit)
    ∷ line "Source" (ip hdr.source)
    ∷ line "Dest" (ip hdr.dest)
    ∷ []

-- `print_bth`
unfoldable pub print_bth : IbBth → List Line
print_bth hdr =
    line "Opcode" (hex hdr.opcode)
    ∷ line "Sollicited" (dec hdr.sollicited_event)
    ∷ line "Migration req" (dec hdr.migration_request)
    ∷ line "Pad count" (dec hdr.pad_count)
    ∷ line "Header version" (dec hdr.transport_hdr_version)
    ∷ line "Partition key" (dec (ntohs hdr.partition_key))
    ∷ line "Destination QP" (hex (ntohl hdr.destination_qp / 2 ^ 8))
    ∷ line "Acknowledge req" (dec hdr.acknowledge_req)
    ∷ line "Packet sequence number" (dec hdr.packet_sequence)
    ∷ []

-- `print_deth`
unfoldable pub print_deth : IbDeth → List Line
print_deth hdr =
    line "Queue key" (hex (ntohl hdr.queue_key))
    ∷ line "Source QP" (hex (ntohl hdr.source_qp / 2 ^ 8))
    ∷ []

-- `print_ib_headers`
unfoldable pub print_ib_headers : IbHeaders → List Line
unfolding print_grh print_bth print_deth
print_ib_headers hdr =
    print_grh hdr.grh ++ (blank ∷ (print_bth hdr.bth ++ (blank ∷ print_deth hdr.deth)))

-- ===== src/RawIbverbs/Shown.antt =====
-- What the send loop prints of the headers that it sends.
use ibverb_prototype.Prelude.{
  ℕ, ◌+◌, ◌*◌, ◌/◌, ◌%◌, ◌^◌, ◌≡◌, refl, arith, [], ◌∷◌, ntohs, ntohl, htonl, bits, memcpy_whole,
}
use ibverb_prototype.LookupAddr.{Addr, IsAddr}
use ibverb_prototype.Packet.{Packet, msg_size}
use ibverb_prototype.Packet.Layout.{IsPacket}
use ibverb_prototype.Packet.Print.{line, blank, dec, hex, ip, print_ib_headers}
use ibverb_prototype.RawIbverbs.{set_headers}

-- A queue pair read back from the field that `htonl(qp << 8)` was stored into.
stored_qp : (qp : ℕ) → ntohl (bits 24 (htonl (bits 32 (qp * 2 ^ 8)))) / 2 ^ 8 ≡ qp % 2 ^ 24
unfolding ntohl
stored_qp qp = ground arith

-- What is printed of the headers that `init_invariant_headers` has set on a well-formed packet,
-- with well-formed addresses: the values that it was given, with the queue pair reduced to its 24
-- bits, and the fields that it leaves alone as they were.
pub print_ib_headers-set_headers :
    (p : Packet) (src dest : Addr) (qp : ℕ)
    → IsPacket p
    → IsAddr src
    → IsAddr dest
    → let grh = p.ib_header.grh in
      let bth = p.ib_header.bth in
      print_ib_headers (set_headers p src dest qp).ib_header
      ≡ line "IP Version" (dec 6)
        ∷ line "Traffic class 1" (hex grh.traffic_class_p1)
        ∷ line "Traffic class 2" (hex grh.traffic_class_p2)
        ∷ line "Flow label" (hex grh.flow_label)
        ∷ line "Length" (dec (msg_size + 24))
        ∷ line "Next header" (dec 27)
        ∷ line "Hop limit" (dec 1)
        ∷ line "Source" (ip src.ipv6)
        ∷ line "Dest" (ip dest.ipv6)
        ∷ blank
        ∷ line "Opcode" (hex 0x64)
        ∷ line "Sollicited" (dec 0)
        ∷ line "Migration req" (dec 1)
        ∷ line "Pad count" (dec bth.pad_count)
        ∷ line "Header version" (dec bth.transport_hdr_version)
        ∷ line "Partition key" (dec 0xffff)
        ∷ line "Destination QP" (hex (qp % 2 ^ 24))
        ∷ line "Acknowledge req" (dec bth.acknowledge_req)
        ∷ line "Packet sequence number" (dec bth.packet_sequence)
        ∷ blank
        ∷ line "Queue key" (hex 0x11111111)
        ∷ line "Source QP" (hex 0x182)
        ∷ []
unfolding print_ib_headers set_headers ntohs ntohl htonl
print_ib_headers-set_headers p src dest qp w ws wd =
    rw
      (
        memcpy_whole p.ib_header.grh.source src.ipv6 16 ws.ipv6.0 w.headers.grh.source.0,
        memcpy_whole p.ib_header.grh.dest dest.ipv6 16 wd.ipv6.0 w.headers.grh.dest.0,
        stored_qp qp,
      )
      refl

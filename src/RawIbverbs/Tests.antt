-- ===== src/RawIbverbs/Tests.antt =====
-- The raw sender at concrete addresses, and its theorems there.
use ibverb_prototype.Prelude.{
  ℕ, ◌≡◌, arith, Bool, true, false, none, some, List, [], ◌∷◌, ◌++◌, replicate, ntohs,
}
use ibverb_prototype.LookupAddr.{Interface, inet}
use ibverb_prototype.RawIbverbs.Program.{World, eth4}
use ibverb_prototype.Crc.{crc32}
use ibverb_prototype.Crc.Reference.{bitwise_crc}
use ibverb_prototype.LookupAddr.{Addr, IsAddr}
use ibverb_prototype.Packet.{header_bytes, packet_bytes, msg_size}
use ibverb_prototype.Packet.Layout.{IsPacket}
use ibverb_prototype.RawIbverbs.{
  ib_header_checksum, ib_checksum, full_packet, set_headers, init_invariant_headers,
}
use ibverb_prototype.Packet.Print.{line, blank, dec, hex, ip, print_ib_headers}
use ibverb_prototype.RawIbverbs.Shown.{print_ib_headers-set_headers}
use ibverb_prototype.RawIbverbs.Image.{checksum_image}
use ibverb_prototype.RawIbverbs.Checksum.{
  ib_header_checksum-checksum_image, ib_checksum-checksum_image,
}
use ibverb_prototype.RawIbverbs.Headers.{init_invariant_headers-ib_checksum}
use ibverb_prototype.RawIbverbs.Wire.{ud_frame, set_headers-ud_frame}
use ibverb_prototype.RawIbverbs.EndToEnd.{full_packet-IsPacket}

-- 04:3f:72:d4:2f:7c, 10.149.5.104, fe80::63f:72ff:fed4:2f7c, the address that `main` writes out.
abbrev local : Addr
local = record {
  mac = 0x04 ∷ 0x3f ∷ 0x72 ∷ 0xd4 ∷ 0x2f ∷ 0x7c ∷ [];
  ipv4 = 0x6805950a;
  ipv6 =
      0xfe ∷ 0x80 ∷ 0 ∷ 0 ∷ 0 ∷ 0 ∷ 0 ∷ 0 ∷ 0x06 ∷ 0x3f ∷ 0x72 ∷ 0xff ∷ 0xfe ∷ 0xd4 ∷ 0x2f ∷ 0x7c
      ∷ [];
}

local-IsAddr : IsAddr local
local-IsAddr = omega arith

abbrev zeros : List ℕ
zeros = replicate 4 0

ib_header_checksum_example :
    ib_header_checksum full_packet.ib_header
    ≡ some (bitwise_crc 0 (checksum_image (header_bytes full_packet.ib_header)))
ib_header_checksum_example =
    ib_header_checksum-checksum_image full_packet.ib_header full_packet-IsPacket.headers

-- The payload length of the zeroed packet counts fewer bytes than its headers have.
ib_checksum_example :
    ib_checksum full_packet
    ≡ some (bitwise_crc 0 (checksum_image (header_bytes full_packet.ib_header) ++ []))
unfolding full_packet ntohs
ib_checksum_example = ib_checksum-checksum_image full_packet full_packet-IsPacket

init_invariant_headers_example :
    let q = set_headers full_packet local local 0x182 in
    let crc = bitwise_crc 0 (checksum_image (header_bytes q.ib_header)) in
    (init_invariant_headers full_packet local local 0x182 ≡ some (crc, q))
    × IsPacket q
    × (ib_checksum (record q { payload = zeros }) ≡ crc32 crc zeros msg_size)
init_invariant_headers_example =
    init_invariant_headers-ib_checksum full_packet local local 0x182 full_packet-IsPacket
      local-IsAddr local-IsAddr zeros

abbrev blank_payload : List ℕ
blank_payload = full_packet.payload

set_headers-ud_frame_example :
    packet_bytes (record (set_headers full_packet local local 0x182) { payload = blank_payload })
    ≡ ud_frame local local 0x182 blank_payload
set_headers-ud_frame_example =
    set_headers-ud_frame local local 0x182 local-IsAddr local-IsAddr (omega arith) blank_payload
      full_packet-IsPacket.payload.0

abbrev two_rounds : List Bool
two_rounds = true ∷ false ∷ true ∷ []

print_ib_headers_example :
    print_ib_headers (set_headers full_packet local local 0x1000182).ib_header
    ≡ line "IP Version" (dec 6)
      ∷ line "Traffic class 1" (hex 0)
      ∷ line "Traffic class 2" (hex 0)
      ∷ line "Flow label" (hex 0)
      ∷ line "Length" (dec 8964)
      ∷ line "Next header" (dec 27)
      ∷ line "Hop limit" (dec 1)
      ∷ line "Source" (ip local.ipv6)
      ∷ line "Dest" (ip local.ipv6)
      ∷ blank
      ∷ line "Opcode" (hex 0x64)
      ∷ line "Sollicited" (dec 0)
      ∷ line "Migration req" (dec 1)
      ∷ line "Pad count" (dec 0)
      ∷ line "Header version" (dec 0)
      ∷ line "Partition key" (dec 0xffff)
      ∷ line "Destination QP" (hex 0x182)
      ∷ line "Acknowledge req" (dec 0)
      ∷ line "Packet sequence number" (dec 0)
      ∷ blank
      ∷ line "Queue key" (hex 0x11111111)
      ∷ line "Source QP" (hex 0x182)
      ∷ []
unfolding full_packet
print_ib_headers_example =
    print_ib_headers-set_headers full_packet local local 0x1000182 full_packet-IsPacket local-IsAddr
      local-IsAddr

-- A system with one interface, on which all that is asked for is found.
one_interface : List Interface
one_interface = record { name = eth4; address = inet 0x6805950a } ∷ []

small_world : World
unfolding one_interface
small_world = record {
  handler = true;
  interfaces = some one_interface;
  resolve = λ host. some 0x6905950a;
  arp_socket = true;
  arp = λ ipv4 device. some (1 ∷ 2 ∷ 3 ∷ 4 ∷ 5 ∷ 6 ∷ 0 ∷ 0 ∷ []);
  parse_mac = λ t. none;
  parse_ipv4 = λ t. none;
  parse_ipv6 = λ t. some (replicate 16 1);
  atoi = λ t. 0x182;
  has_index = λ t. true;
  own_addr = local;
  packet_socket = true;
  beyond = zeros;
  signals = false ∷ false ∷ true ∷ [];
  sends = true ∷ true ∷ false ∷ [];
}

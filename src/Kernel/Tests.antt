-- ===== src/Kernel/Tests.antt =====
-- The kernel on an array of zeros, and two short packets in lines.
use ibverb_prototype.Prelude.{
  ℕ, ◌+◌, ◌/◌, ◌≡◌, refl, arith, some, List, [], ◌∷◌, ◌++◌, take, drop, replicate, length,
  length-replicate, le_bytes, All, All-replicate,
}
use ibverb_prototype.Crc.Correct.{IsByte}
use ibverb_prototype.Crc.Reference.{bitwise_crc}
use ibverb_prototype.LookupAddr.{Addr, IsAddr}
use ibverb_prototype.Packet.{header_bytes, msg_size}
use ibverb_prototype.RawIbverbs.{full_packet, set_headers, init_invariant_headers}
use ibverb_prototype.RawIbverbs.Image.{checksum_image}
use ibverb_prototype.Kernel.Frame.{headers_of, write_ibverb_packet-init_invariant_headers}
use ibverb_prototype.Kernel.{ChannelLine, data_size, write_ibverb_packet, line_flags}
use ibverb_prototype.Kernel.Lines.{reassemble}
use ibverb_prototype.Kernel.Whole.{
  body, write_ibverb_packet-reassemble, write_ibverb_packet-IsFramed,
}
use ibverb_prototype.Kernel.Framing.{IsFramed}

zero_bytes : List ℕ
zero_bytes = replicate data_size 0

zero_bytes-length : length zero_bytes ≡ data_size
unfolding zero_bytes
zero_bytes-length = length-replicate {A = ℕ} data_size 0

zero_bytes-IsByte : All IsByte zero_bytes
unfolding zero_bytes
zero_bytes-IsByte = All-replicate IsByte data_size 0 (omega arith)

write_ibverb_packet-reassemble_example :
    (lines : List ChannelLine) × (write_ibverb_packet (7 ∷ 8 ∷ 9 ∷ []) 5 2 zero_bytes ≡ some lines)
    × (reassemble lines
        ≡ take 2 (7 ∷ 8 ∷ 9 ∷ [])
          ++ (body
                (7 ∷ 8 ∷ 9 ∷ [])
                5
                2
                zero_bytes
                (omega arith)
                (omega arith)
                zero_bytes-length
                zero_bytes-IsByte
              ++ le_bytes 4 (
                  bitwise_crc 5 (
                    body
                      (7 ∷ 8 ∷ 9 ∷ [])
                      5
                      2
                      zero_bytes
                      (omega arith)
                      (omega arith)
                      zero_bytes-length
                      zero_bytes-IsByte))))
write_ibverb_packet-reassemble_example =
    write_ibverb_packet-reassemble (7 ∷ 8 ∷ 9 ∷ []) 5 2 zero_bytes (omega arith) (omega arith)
      zero_bytes-length zero_bytes-IsByte

-- A packet of 33 bytes: 31 bytes of padding in its second line; and one of 32 bytes.
flags_of_33 : line_flags 33 1 ≡ 250
unfolding line_flags
flags_of_33 = refl

flags_of_32 : line_flags 32 0 ≡ 3
unfolding line_flags
flags_of_32 = refl

abbrev here : Addr
here = record { mac = replicate 6 1; ipv4 = 7; ipv6 = replicate 16 2 }

here-IsAddr : IsAddr here
here-IsAddr = omega arith

write_ibverb_packet-init_invariant_headers_example :
    (crc : ℕ) × (lines : List ChannelLine) × (payload : List ℕ) × (init_invariant_headers
        full_packet here here 0x182
      ≡ some (crc, set_headers full_packet here here 0x182))
    × (write_ibverb_packet (headers_of (set_headers full_packet here here 0x182)) crc 74 zero_bytes
        ≡ some lines)
    × (payload ≡ take msg_size (drop 74 zero_bytes))
    × (reassemble lines
        ≡ headers_of (set_headers full_packet here here 0x182)
          ++ (payload
              ++ le_bytes 4 (
                  bitwise_crc 0 (
                    checksum_image
                      (header_bytes (set_headers full_packet here here 0x182).ib_header)
                    ++ payload))))
write_ibverb_packet-init_invariant_headers_example =
    write_ibverb_packet-init_invariant_headers here here 0x182 here-IsAddr here-IsAddr zero_bytes
      zero_bytes-length zero_bytes-IsByte

write_ibverb_packet-IsFramed_example :
    (lines : List ChannelLine) × (write_ibverb_packet (7 ∷ 8 ∷ 9 ∷ []) 5 2 zero_bytes ≡ some lines)
    × IsFramed (2 + msg_size + 4) 0 lines
    × (length lines ≡ (2 + msg_size + 35) / 32)
write_ibverb_packet-IsFramed_example =
    write_ibverb_packet-IsFramed (7 ∷ 8 ∷ 9 ∷ []) 5 2 zero_bytes (omega arith) (omega arith)
      zero_bytes-length zero_bytes-IsByte

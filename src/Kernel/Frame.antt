-- ===== src/Kernel/Frame.antt =====
-- The frame that the kernel makes of the headers that `init_invariant_headers` sets.
use ibverb_prototype.Prelude.{
  ℕ, ◌≤◌, ◌≡◌, sym, ap, ap₂, ◌∙◌, arith, some, List, ◌++◌, length, take, drop, le_bytes,
  length-append, take-all, All,
}
use ibverb_prototype.Crc.Reference.{bitwise_crc}
use ibverb_prototype.Crc.Chunks.{bitwise_crc-append}
use ibverb_prototype.Crc.Correct.{IsByte}
use ibverb_prototype.LookupAddr.{Addr, IsAddr}
use ibverb_prototype.Packet.{Packet, eth_bytes, header_bytes, msg_size}
use ibverb_prototype.Packet.Layout.{IsPacket, eth_bytes-IsArray, header_bytes-IsArray}
use ibverb_prototype.RawIbverbs.{full_packet, set_headers, init_invariant_headers}
use ibverb_prototype.RawIbverbs.Image.{checksum_image}
use ibverb_prototype.RawIbverbs.Headers.{set_headers-IsPacket, init_invariant_headers-ib_checksum}
use ibverb_prototype.RawIbverbs.EndToEnd.{full_packet-IsPacket}
use ibverb_prototype.Kernel.{ChannelLine, data_size, write_ibverb_packet}
use ibverb_prototype.Kernel.Lines.{reassemble}
use ibverb_prototype.Kernel.Whole.{body, body-drop, write_ibverb_packet-reassemble}

-- The first 74 bytes of the packet, which are its headers.
abbrev pub headers_of : Packet → List ℕ
headers_of q = eth_bytes q.ether_header ++ header_bytes q.ib_header

module _ (src dest : Addr) (qp : ℕ) (ws : IsAddr src) (wd : IsAddr dest) (bytes : List ℕ)
    (size : length bytes ≡ data_size) (are_bytes : All IsByte bytes) where
  q : Packet
  q = set_headers full_packet src dest qp

  q-IsPacket : IsPacket q
  unfolding q
  q-IsPacket = set_headers-IsPacket full_packet src dest qp full_packet-IsPacket ws wd

  image : List ℕ
  image = checksum_image (header_bytes q.ib_header)

  length-headers : length (headers_of q) ≡ 74
  length-headers = omega (
    arith,
    length-append (eth_bytes q.ether_header) (header_bytes q.ib_header),
    (eth_bytes-IsArray q.ether_header q-IsPacket.h_dest q-IsPacket.h_source).0,
    (header_bytes-IsArray q.ib_header q-IsPacket.headers).0,
  )

  -- For well-formed addresses, when the kernel gets the headers and the checksum that
  -- `init_invariant_headers` leaves: the bytes of its lines are the headers, the 8940 bytes that its
  -- array holds behind them, and lowest byte first the CRC-32 of the image of the InfiniBand
  -- headers followed by these bytes.
  pub write_ibverb_packet-init_invariant_headers :
      (crc : ℕ) × (lines : List ChannelLine) × (payload : List ℕ) × (init_invariant_headers
          full_packet src dest qp
        ≡ some (crc, set_headers full_packet src dest qp))
      × (write_ibverb_packet (headers_of (set_headers full_packet src dest qp)) crc 74 bytes
          ≡ some lines)
      × (payload ≡ take msg_size (drop 74 bytes))
      × (reassemble lines
          ≡ headers_of (set_headers full_packet src dest qp)
            ++ (payload
                ++ le_bytes 4 (
                    bitwise_crc 0 (
                      checksum_image (header_bytes (set_headers full_packet src dest qp).ib_header)
                      ++ payload))))
  unfolding q image
  write_ibverb_packet-init_invariant_headers =
      let crc : ℕ = bitwise_crc 0 image in
      let given : 74 ≤ length (headers_of q) = omega (arith, length-headers) in
      let small : 74 ≤ 80 = omega arith in
      let (lines, run, content) =
        write_ibverb_packet-reassemble (headers_of q) crc 74 bytes given small size are_bytes in
      let payload : List ℕ = body (headers_of q) crc 74 bytes given small size are_bytes in
      (
        crc,
        lines,
        payload,
        (init_invariant_headers-ib_checksum full_packet src dest qp full_packet-IsPacket ws wd
            bytes).0,
        run,
        body-drop (headers_of q) crc 74 bytes given small size are_bytes,
        content
            ∙ ap₂ (λ h c. h ++ (payload ++ le_bytes 4 c))
                (ap (λ n. take n (headers_of q)) (sym length-headers) ∙ take-all (headers_of q))
                (sym (bitwise_crc-append 0 image payload)),
      )

-- ===== src/RawIbverbs/Headers.antt =====
-- `init_invariant_headers`, the well-formedness of the packet, and the checksum that the sender and
-- `ib_checksum` continue.
use ibverb_prototype.Prelude.{
  ℕ, ◌+◌, ◌-◌, ◌%◌, ◌^◌, ◌≡◌, ap, ◌∙◌, arith, some, ◌>>=◌, List, ntohs, htons-lt, htonl-lt,
  ntohs-htons, memcpy, memcpy_whole,
}
use ibverb_prototype.Crc.{crc32}
use ibverb_prototype.Crc.Reference.{bitwise_crc}
use ibverb_prototype.LookupAddr.{Addr, IsAddr}
use ibverb_prototype.Packet.{Packet, header_bytes, msg_size}
use ibverb_prototype.Packet.Layout.{IsArray, IsGrh, IsPacket}
use ibverb_prototype.RawIbverbs.{
  ib_header_checksum, data_length, ib_checksum, set_headers, init_invariant_headers,
}
use ibverb_prototype.RawIbverbs.Image.{checksum_image}
use ibverb_prototype.RawIbverbs.Checksum.{ib_header_checksum-checksum_image}

memcpy-IsArray :
    (n : ℕ) (dst src : List ℕ) → IsArray n dst → IsArray n src → IsArray n (memcpy dst src n)
memcpy-IsArray n dst src d s = rw (memcpy_whole dst src n s.0 d.0) s

module _ (p : Packet) (src dest : Addr) (qp : ℕ) (wp : IsPacket p) (ws : IsAddr src)
    (wd : IsAddr dest) where
  set_headers-IsGrh : IsGrh (set_headers p src dest qp).ib_header.grh
  unfolding set_headers
  set_headers-IsGrh = record {
    traffic_class_p1 = wp.headers.grh.traffic_class_p1;
    ip_version = omega arith;
    traffic_class_p2 = wp.headers.grh.traffic_class_p2;
    flow_label = wp.headers.grh.flow_label;
    payload_length = htons-lt 8964;
    next_header = omega arith;
    hop_limit = omega arith;
    source = memcpy-IsArray 16 _ _ wp.headers.grh.source ws.ipv6;
    dest = memcpy-IsArray 16 _ _ wp.headers.grh.dest wd.ipv6;
  }

  pub set_headers-IsPacket : IsPacket (set_headers p src dest qp)
  unfolding set_headers
  set_headers-IsPacket = record {
    h_dest = memcpy-IsArray 6 _ _ wp.h_dest wd.mac;
    h_source = memcpy-IsArray 6 _ _ wp.h_source ws.mac;
    h_proto = htons-lt 0x8915;
    headers = record {
      grh = set_headers-IsGrh;
      bth = record {
        opcode = omega arith;
        transport_hdr_version = wp.headers.bth.transport_hdr_version;
        pad_count = wp.headers.bth.pad_count;
        migration_request = omega arith;
        sollicited_event = omega arith;
        partition_key = htons-lt 0xffff;
        reserved1 = wp.headers.bth.reserved1;
        destination_qp = omega arith;
        acknowledge_req = wp.headers.bth.acknowledge_req;
        reserved2 = wp.headers.bth.reserved2;
        packet_sequence = wp.headers.bth.packet_sequence;
      };
      deth = record {
        queue_key = htonl-lt 0x11111111;
        reserved = wp.headers.deth.reserved;
        source_qp = omega arith;
      };
    };
    payload = wp.payload;
  }

  -- Given a well-formed packet and addresses, `init_invariant_headers` returns, and the packet is
  -- well formed. Its result is the bitwise CRC-32 of the image of the headers that it has set,
  -- and `ib_checksum` of the packet, whatever payload of `MSG_SIZE` bytes is put into it, is this
  -- result continued over those `MSG_SIZE` bytes, as the send loop continues it.
  pub init_invariant_headers-ib_checksum :
      (body : List ℕ)
      → let q = set_headers p src dest qp in
        let crc = bitwise_crc 0 (checksum_image (header_bytes q.ib_header)) in
        (init_invariant_headers p src dest qp ≡ some (crc, q))
        × IsPacket q
        × (ib_checksum (record q { payload = body }) ≡ crc32 crc body msg_size)
  unfolding init_invariant_headers ib_checksum data_length
  init_invariant_headers-ib_checksum body = (
    ap (λ o. o >>= λ c. some (c, set_headers p src dest qp)) sum,
    set_headers-IsPacket,
    ap (λ o. o >>= λ c. crc32 c body ((ntohs length_field + 2 ^ 64 - 24) % 2 ^ 64)) sum
        ∙ ap (crc32 (bitwise_crc 0 image) body) counted,
  )
    where
      image : List ℕ
      image = checksum_image (header_bytes (set_headers p src dest qp).ib_header)

      length_field : ℕ
      length_field = (set_headers p src dest qp).ib_header.grh.payload_length

      sum : ib_header_checksum (set_headers p src dest qp).ib_header ≡ some (bitwise_crc 0 image)
      sum = ib_header_checksum-checksum_image _ set_headers-IsPacket.headers

      counted : (ntohs length_field + 2 ^ 64 - 24) % 2 ^ 64 ≡ msg_size
      counted = unfold set_headers in omega (arith, ntohs-htons 8964 (omega arith))

-- ===== src/RawIbverbs/Wire.antt =====
-- The frame that the raw sender puts on the wire, against the layouts of the RoCEv1 and InfiniBand
-- specifications: every multi-byte field highest byte first.
use ibverb_prototype.Prelude.{
  ℕ, ◌+◌, ◌*◌, ◌^◌, ◌<◌, ◌≡◌, refl, sym, ap, ap₂, ◌∙◌, arith, List, ◌∷◌, ◌++◌, length, replicate,
  bits, htons, htonl, memcpy_whole, le_bytes, be16, be24, be32, append_assoc,
}
use ibverb_prototype.LookupAddr.{Addr, IsAddr}
use ibverb_prototype.Packet.{
  Packet, grh_bytes, bth_bytes, deth_bytes, eth_bytes, packet_bytes, msg_size,
}
use ibverb_prototype.RawIbverbs.{set_headers, full_packet}

-- A RoCEv1 frame with an unreliable datagram, up to its checksum.
unfoldable pub ud_frame : Addr → Addr → ℕ → List ℕ → List ℕ
ud_frame src dest qp body =
    -- Ethernet: addresses and the type of RoCEv1
    (dest.mac ++ (src.mac ++ be16 0x8915))
    ++  -- global routing header: version 6, length, next header 27, hop limit 1
        ((be32 (6 * 2 ^ 28) ++ (be16 (length body + 24) ++ (27 ∷ 1 ∷ (src.ipv6 ++ dest.ipv6))))
        ++  -- base transport header: UD send only, the migration bit, default partition
            (((0x64 ∷ 0x40 ∷ (be16 0xffff ++ (0 ∷ (be24 qp ++ be32 0)))))
            ++  -- datagram header: queue key and source queue pair
                ((be32 0x11111111 ++ (0 ∷ be24 0x182)) ++ body)))

-- A queue pair that is stored through `htonl(qp << 8)` stands on the wire highest byte first.
queue_pair_bytes :
    (qp : ℕ)
    → qp < 2 ^ 32
    → le_bytes 4 (bits 24 (htonl (bits 32 (qp * 2 ^ 8))) * 2 ^ 8) ≡ 0 ∷ be24 qp
unfolding htonl
queue_pair_bytes qp word = ground arith

module _ (src dest : Addr) (qp : ℕ) (ws : IsAddr src) (wd : IsAddr dest) (word : qp < 2 ^ 32) where
  sent : Packet
  sent = set_headers full_packet src dest qp

  eth_part : eth_bytes sent.ether_header ≡ dest.mac ++ (src.mac ++ be16 0x8915)
  unfolding sent set_headers full_packet eth_bytes htons
  eth_part =
      rw
        (
          memcpy_whole (replicate 6 0) dest.mac 6 wd.mac.0 refl,
          memcpy_whole (replicate 6 0) src.mac 6 ws.mac.0 refl,
        )
        refl

  grh_part :
      grh_bytes sent.ib_header.grh
      ≡ be32 (6 * 2 ^ 28) ++ (be16 (msg_size + 24) ++ (27 ∷ 1 ∷ (src.ipv6 ++ dest.ipv6)))
  unfolding sent set_headers full_packet grh_bytes htons
  grh_part =
      rw
        (
          memcpy_whole (replicate 16 0) dest.ipv6 16 wd.ipv6.0 refl,
          memcpy_whole (replicate 16 0) src.ipv6 16 ws.ipv6.0 refl,
        )
        refl

  bth_part : bth_bytes sent.ib_header.bth ≡ 0x64 ∷ 0x40 ∷ (be16 0xffff ++ (0 ∷ (be24 qp ++ be32 0)))
  unfolding sent set_headers full_packet bth_bytes htons
  bth_part =
      ap (λ l. 0x64 ∷ 0x40 ∷ (be16 0xffff ++ (l ++ be32 0)))
        (ap (le_bytes 4) (omega arith) ∙ queue_pair_bytes qp word)

  deth_part : deth_bytes sent.ib_header.deth ≡ be32 0x11111111 ++ (0 ∷ be24 0x182)
  unfolding sent set_headers full_packet deth_bytes htonl
  deth_part = refl

  -- The frame's bytes after `init_invariant_headers` on the zeroed packet are the specified
  -- frame: for well-formed addresses and a 32-bit queue pair, of which the low 24 bits are used.
  pub set_headers-ud_frame :
      (body : List ℕ)
      → length body ≡ msg_size
      → packet_bytes (record (set_headers full_packet src dest qp) { payload = body })
        ≡ ud_frame src dest qp body
  unfolding packet_bytes ud_frame sent
  set_headers-ud_frame body l = ap₂ ◌++◌ eth_part (
      append_assoc (grh_bytes sent.ib_header.grh)
        (bth_bytes sent.ib_header.bth ++ deth_bytes sent.ib_header.deth) body
      ∙ ap₂ ◌++◌
          (grh_part
            ∙ ap (λ n. be32 (6 * 2 ^ 28) ++ (be16 (n + 24) ++ (27 ∷ 1 ∷ (src.ipv6 ++ dest.ipv6))))
                (sym l))
          (append_assoc (bth_bytes sent.ib_header.bth) (deth_bytes sent.ib_header.deth) body
            ∙ ap₂ (λ b d. b ++ (d ++ body)) bth_part deth_part))

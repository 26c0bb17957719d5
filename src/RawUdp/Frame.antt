-- ===== src/RawUdp/Frame.antt =====
-- The buffer of a round, and the frame that the specifications ask for.
use ibverb_prototype.Prelude.{
  ℕ, ◌+◌, ◌-◌, ◌^◌, ◌≤◌, ◌≡◌, refl, sym, ap, ap₂, ◌∙◌, arith, some, List, ◌∷◌, ◌++◌, append_assoc,
  length, length-append, take, take-append_length, replicate, memcpy_whole, bits, le_bytes, htons,
  htonl, be16, le_bytes-htons,
}
use ibverb_prototype.LookupAddr.{Addr, IsAddr}
use ibverb_prototype.Packet.{eth_bytes}
use ibverb_prototype.Text.Message.{padded}
use ibverb_prototype.RawUdp.{
  Buffer, ip_bytes, udp_bytes, buffer_bytes, header_size, max_msg_size, ether_buffer,
  set_udp_headers, set_lengths, ipv4check,
}
use ibverb_prototype.RawUdp.Check.{ones_sum}
use ibverb_prototype.RawUdp.Verify.{IsIpHdr, ipv4check-ip_bytes}

-- An IPv4 header of 20 bytes with the given checksum: total length, identification 0, no fragment,
-- time to live 255, UDP, and the addresses as they are kept.
unfoldable pub ipv4_header : Addr → Addr → ℕ → ℕ → List ℕ
ipv4_header local remote size check =
    0x45
    ∷ 0
    ∷ (be16 (28 + size)
        ++ (be16 0
            ++ (be16 0
                ++ (255
                    ∷ 17
                    ∷ (le_bytes 2 check ++ (le_bytes 4 local.ipv4 ++ le_bytes 4 remote.ipv4))))))

-- The checksum that the header needs.
unfoldable pub checksum_for : Addr → Addr → ℕ → ℕ
unfolding ipv4_header
checksum_for local remote size = 2 ^ 16 - 1 - ones_sum (ipv4_header local remote size 0)

-- An Ethernet frame with a UDP datagram from port 4242, without the optional UDP checksum.
unfoldable pub udp_frame : Addr → Addr → ℕ → List ℕ → List ℕ
unfolding ipv4_header checksum_for
udp_frame local remote port text =
    let size = length text in
    (remote.mac ++ (local.mac ++ be16 0x0800))
    ++ (ipv4_header local remote size (checksum_for local remote size)
        ++ ((be16 4242 ++ (be16 port ++ (be16 (8 + size) ++ be16 0))) ++ text))

module _ (local remote : Addr) (port : ℕ) where
  unfoldable pub base : Buffer
  base = set_udp_headers ether_buffer local remote port

  -- The buffer in the round of a text, with the checksum field cleared, and with the checksum.
  unfoldable pub prepared : List ℕ → Buffer
  unfolding base
  prepared text =
      let b = base in set_lengths (length text) (record b { udp_data = padded max_msg_size text })

  unfoldable pub checked : List ℕ → Buffer
  unfolding prepared
  checked text =
      let b = prepared text in
      let ip = (prepared text).ip_header in
      record b { ip_header = record ip { check = checksum_for local remote (length text) } }

  pub prepared-IsIpHdr : (text : List ℕ) → IsIpHdr (prepared text).ip_header
  unfolding prepared set_lengths base set_udp_headers
  prepared-IsIpHdr text = record {
    ihl = omega arith;
    some_length = omega arith;
    version = omega arith;
    tos = omega arith;
    ttl = omega arith;
    protocol = omega arith;
  }

  pub ip_bytes-ipv4_header :
      (text : List ℕ) (c : ℕ)
      → length text ≤ 19
      → ip_bytes (record (prepared text).ip_header { check = c })
        ≡ ipv4_header local remote (length text) c
  unfolding prepared set_lengths base set_udp_headers ip_bytes ipv4_header htonl
  ip_bytes-ipv4_header text c h =
      ap
        (λ l.
          0x45
          ∷ 0
          ∷ (l
              ++ (be16 0
                  ++ (be16 0
                      ++ (255
                          ∷ 17
                          ∷ (le_bytes 2 c ++ (le_bytes 4 local.ipv4 ++ le_bytes 4 remote.ipv4)))))))
        (ap (λ n. le_bytes 2 (htons n))
            (let e : bits 16 (bits 16 (header_size + length text) + 2 ^ 64 - 14)
                  ≡ 28 + length text =
                omega arith in
              e)
          ∙ le_bytes-htons (28 + length text) (omega arith))

  pub answer :
      (text : List ℕ)
      → length text ≤ 19
      → ipv4check (ip_bytes (prepared text).ip_header) 20
        ≡ some (checksum_for local remote (length text))
  unfolding checksum_for prepared set_lengths
  answer text h =
      ipv4check-ip_bytes (prepared text).ip_header (prepared-IsIpHdr text)
      ∙ ap (λ l. some (2 ^ 16 - 1 - ones_sum l)) (ip_bytes-ipv4_header text 0 h)

  pub udp_part :
      (text : List ℕ)
      → length text ≤ 19
      → udp_bytes (checked text).udp_header
        ≡ be16 4242 ++ (be16 port ++ (be16 (8 + length text) ++ be16 0))
  unfolding checked prepared set_lengths base set_udp_headers udp_bytes htons
  udp_part text h =
      ap₂ (λ p l. be16 4242 ++ (p ++ (l ++ be16 0)))
        (le_bytes-htons (bits 16 port) (omega arith)
          ∙ (let same : be16 (bits 16 port) ≡ be16 port = ground arith in same))
        (le_bytes-htons (bits 16 (8 + length text)) (omega arith)
          ∙ ap be16 (let e : bits 16 (8 + length text) ≡ 8 + length text = omega arith in e))

  pub ip_part :
      (text : List ℕ)
      → length text ≤ 19
      → ip_bytes (checked text).ip_header
        ≡ ipv4_header local remote (length text) (checksum_for local remote (length text))
  unfolding checked
  ip_part text h = ip_bytes-ipv4_header text (checksum_for local remote (length text)) h

  unfoldable pub zeros : List ℕ → List ℕ
  zeros text = replicate (max_msg_size - length text) 0

  pub data_part : (text : List ℕ) → (checked text).udp_data ≡ text ++ zeros text
  unfolding checked prepared set_lengths padded zeros
  data_part text = refl

module _ (local remote : Addr) (port : ℕ) (wl : IsAddr local) (wr : IsAddr remote) where
  eth_part :
      (text : List ℕ)
      → eth_bytes (checked local remote port text).ether_header
        ≡ remote.mac ++ (local.mac ++ be16 0x0800)
  unfolding checked prepared set_lengths base set_udp_headers ether_buffer eth_bytes htons
  eth_part text =
      rw
        (
          memcpy_whole (replicate 6 0) remote.mac 6 wr.mac.0 refl,
          memcpy_whole (replicate 6 0) local.mac 6 wl.mac.0 refl,
        )
        refl

  length-udp_frame : (text : List ℕ) → length (udp_frame local remote port text) ≡ 42 + length text
  unfolding udp_frame ipv4_header
  length-udp_frame text = omega (
    arith,
    length-append (remote.mac ++ (local.mac ++ be16 0x0800)) (
        ipv4_header local remote (length text) (checksum_for local remote (length text))
        ++ ((be16 4242 ++ (be16 port ++ (be16 (8 + length text) ++ be16 0))) ++ text)),
    length-append remote.mac (local.mac ++ be16 0x0800),
    length-append local.mac (be16 0x0800),
    wl.mac.0,
    wr.mac.0,
  )

  -- The buffer is the frame of the text, and zeros behind it.
  buffer_bytes-udp_frame :
      (text : List ℕ)
      → length text ≤ 19
      → buffer_bytes (checked local remote port text)
        ≡ udp_frame local remote port text ++ zeros local remote port text
  unfolding buffer_bytes udp_frame
  buffer_bytes-udp_frame text h =
      ap₂ ◌++◌ (eth_part text) (
        ap₂ ◌++◌ (ip_part local remote port text h)
          (ap₂ ◌++◌ (udp_part local remote port text h) (data_part local remote port text)))
      ∙ sym (
          append_assoc eth (ip ++ (udp ++ text)) (zeros local remote port text)
          ∙ ap (λ l. eth ++ l)
              (append_assoc ip (udp ++ text) (zeros local remote port text)
                ∙ ap (λ l. ip ++ l) (append_assoc udp text (zeros local remote port text))))
    where
      eth : List ℕ
      eth = remote.mac ++ (local.mac ++ be16 0x0800)

      ip : List ℕ
      ip = ipv4_header local remote (length text) (checksum_for local remote (length text))

      udp : List ℕ
      udp = be16 4242 ++ (be16 port ++ (be16 (8 + length text) ++ be16 0))

  taken :
      (text : List ℕ)
      → length text ≤ 19
      → take (bits 16 (header_size + length text)) (buffer_bytes (checked local remote port text))
        ≡ udp_frame local remote port text
  taken text h =
      ap₂ take
        (let e : bits 16 (header_size + length text) ≡ length (udp_frame local remote port text) =
            omega (arith, length-udp_frame text) in
          e)
        (buffer_bytes-udp_frame text h)
      ∙ take-append_length (udp_frame local remote port text) (zeros local remote port text)

  pub taken_prepared :
      (text : List ℕ)
      → length text ≤ 19
      → take (bits 16 (header_size + length text)) (
          buffer_bytes (record (prepared local remote port text) {
            ip_header = record (prepared local remote port text).ip_header {
              check = checksum_for local remote (length text);
            };
          }))
        ≡ udp_frame local remote port text
  unfolding checked
  taken_prepared text h = taken text h

-- ===== src/RawIbverbs/Checksum.antt =====
-- What the two checksum functions compute.
use ibverb_prototype.Prelude.{
  ℕ, ◌+◌, ◌-◌, ◌%◌, ◌^◌, ◌<◌, ◌≡◌, refl, sym, ap, ap₂, ◌∙◌, arith, none, some, ◌>>=◌, List, ◌++◌,
  length, replicate, take, drop, take-append_length, drop-append_length, take-all, ntohs, leb,
  if◌then◌else◌, bit_xor, ntohs-lt,
}
use ibverb_prototype.Crc.{crc32, crc_loop, rounds}
use ibverb_prototype.Crc.Reference.{bitwise_crc}
use ibverb_prototype.Crc.Correct.{crc32-fits, crc32-bitwise_crc}
use ibverb_prototype.Crc.Chunks.{bitwise_crc-append}
use ibverb_prototype.Packet.{
  IbGrh, IbBth, IbHeaders, Packet, grh_bytes, bth_bytes, deth_bytes, header_bytes, msg_size,
}
use ibverb_prototype.Packet.Layout.{
  IsArray, IsGrh, IsBth, IsHeaders, IsPacket, grh_bytes-IsArray, bth_bytes-IsArray,
  deth_bytes-IsArray,
}
use ibverb_prototype.RawIbverbs.{
  masked_grh, masked_bth, ib_header_checksum, data_length, ib_checksum,
}
use ibverb_prototype.RawIbverbs.Image.{variant_grh, variant_bth, checksum_image}

-- A call over a whole array of a struct's size.
pub crc32-array :
    (c n : ℕ) (xs : List ℕ) → IsArray n xs → n < 2 ^ 31 → crc32 c xs n ≡ some (bitwise_crc c xs)
crc32-array c n xs a small =
    crc32-fits c xs n a.1 small (omega arith)
    ∙ ap (λ l. some (bitwise_crc c l)) (ap (λ m. take m xs) (sym a.0) ∙ take-all xs)

masked_grh-IsGrh : (g : IbGrh) → IsGrh g → IsGrh (masked_grh g)
unfolding masked_grh
masked_grh-IsGrh g w = record {
  traffic_class_p1 = omega arith;
  ip_version = w.ip_version;
  traffic_class_p2 = omega arith;
  flow_label = omega arith;
  payload_length = w.payload_length;
  next_header = w.next_header;
  hop_limit = omega arith;
  source = w.source;
  dest = w.dest;
}

masked_bth-IsBth : (b : IbBth) → IsBth b → IsBth (masked_bth b)
unfolding masked_bth
masked_bth-IsBth b w = omega arith

variant_grh-grh_bytes : (g : IbGrh) → IsGrh g → variant_grh (grh_bytes g) ≡ grh_bytes (masked_grh g)
unfolding variant_grh grh_bytes masked_grh
variant_grh-grh_bytes g w = ground arith

variant_bth-bth_bytes :
    (b : IbBth) (rest : List ℕ)
    → IsBth b
    → variant_bth (bth_bytes b ++ rest) ≡ bth_bytes (masked_bth b) ++ rest
unfolding variant_bth bth_bytes masked_bth
variant_bth-bth_bytes b rest w = ground arith

-- The image of the structs' bytes is the bytes of the masked structs.
checksum_image-header_bytes :
    (h : IbHeaders)
    → IsHeaders h
    → checksum_image (header_bytes h)
      ≡ replicate 8 0xff
        ++ (grh_bytes (masked_grh h.grh) ++ (bth_bytes (masked_bth h.bth) ++ deth_bytes h.deth))
unfolding checksum_image header_bytes
checksum_image-header_bytes h w =
    ap (λ l. replicate 8 0xff ++ l)
      (ap₂ ◌++◌ (ap variant_grh first ∙ variant_grh-grh_bytes h.grh w.grh)
        (ap variant_bth second ∙ variant_bth-bth_bytes h.bth (deth_bytes h.deth) w.bth))
  where
    rest : List ℕ
    rest = bth_bytes h.bth ++ deth_bytes h.deth

    forty : 40 ≡ length (grh_bytes h.grh)
    forty = sym (grh_bytes-IsArray h.grh w.grh).0

    first : take 40 (grh_bytes h.grh ++ rest) ≡ grh_bytes h.grh
    first =
        ap (λ n. take n (grh_bytes h.grh ++ rest)) forty ∙ take-append_length (grh_bytes h.grh) rest

    second : drop 40 (grh_bytes h.grh ++ rest) ≡ rest
    second =
        ap (λ n. drop n (grh_bytes h.grh ++ rest)) forty ∙ drop-append_length (grh_bytes h.grh) rest

-- For well-formed headers, `ib_header_checksum` returns the bitwise CRC-32, from 0, of the image
-- of the 60 header bytes: no call reads out of range, and its four calls over the padding and the
-- masked copies amount to one over the bytes that the specification names.
pub ib_header_checksum-checksum_image :
    (h : IbHeaders)
    → IsHeaders h
    → ib_header_checksum h ≡ some (bitwise_crc 0 (checksum_image (header_bytes h)))
unfolding ib_header_checksum
ib_header_checksum-checksum_image h w =
    rw
      (
        crc32-array 0 8 (replicate 8 0xff) (omega arith) (omega arith),
        crc32-array c₁ 40 grh (grh_bytes-IsArray _ (masked_grh-IsGrh h.grh w.grh)) (omega arith),
        crc32-array c₂ 12 bth (bth_bytes-IsArray _ (masked_bth-IsBth h.bth w.bth)) (omega arith),
        crc32-array c₃ 8 deth (deth_bytes-IsArray h.deth w.deth) (omega arith),
      )
      (ap some (
        sym (bitwise_crc-append c₂ bth deth)
        ∙ sym (bitwise_crc-append c₁ grh (bth ++ deth))
        ∙ sym (bitwise_crc-append 0 (replicate 8 0xff) (grh ++ (bth ++ deth)))
        ∙ ap (bitwise_crc 0) (sym (checksum_image-header_bytes h w))))
  where
    grh : List ℕ
    grh = grh_bytes (masked_grh h.grh)

    bth : List ℕ
    bth = bth_bytes (masked_bth h.bth)

    deth : List ℕ
    deth = deth_bytes h.deth

    c₁ : ℕ
    c₁ = bitwise_crc 0 (replicate 8 0xff)

    c₂ : ℕ
    c₂ = bitwise_crc c₁ grh

    c₃ : ℕ
    c₃ = bitwise_crc c₂ bth

-- The size that reaches the loop: a length that does not even count the headers wraps round to
-- a `size_t` whose `int` is negative, and the loop makes no round.
crc32-data_length :
    (c : ℕ) (p : Packet)
    → IsPacket p
    → crc32 c p.payload (data_length p)
      ≡ crc32 c p.payload (ntohs p.ib_header.grh.payload_length - 24)
unfolding crc32 rounds data_length
crc32-data_length c p w =
    ap (λ n. crc_loop n (bit_xor c 0xffffffff) p.payload >>= λ r. some (bit_xor r 0xffffffff))
      same_rounds
  where
    n : ℕ
    n = ntohs p.ib_header.grh.payload_length

    small : n < 2 ^ 16
    small = ntohs-lt p.ib_header.grh.payload_length

    same_rounds : rounds ((n + 2 ^ 64 - 24) % 2 ^ 64) ≡ rounds (n - 24)
    same_rounds = ground arith

-- For a well-formed packet, `ib_checksum` returns the bitwise CRC-32, from 0, of the header image
-- followed by as many payload bytes as the payload length counts beyond the 24 bytes of transport
-- headers and checksum (none if it counts fewer). A length that counts more than `MSG_SIZE` such
-- bytes makes it read past the packet.
pub ib_checksum-checksum_image :
    (p : Packet)
    → IsPacket p
    → let n = ntohs p.ib_header.grh.payload_length - 24 in
      ib_checksum p ≡ (
        if leb n msg_size
        then some (bitwise_crc 0 (checksum_image (header_bytes p.ib_header) ++ take n p.payload))
        else none)
unfolding ib_checksum
ib_checksum-checksum_image p w =
    rw
      (
        ib_header_checksum-checksum_image p.ib_header w.headers,
        crc32-data_length (bitwise_crc 0 image) p w,
        crc32-bitwise_crc (bitwise_crc 0 image) p.payload n w.payload.1
            (omega (arith, ntohs-lt p.ib_header.grh.payload_length)),
        w.payload.0,
        bitwise_crc-append 0 image (take n p.payload),
      )
      refl
  where
    n : ℕ
    n = ntohs p.ib_header.grh.payload_length - 24

    image : List ℕ
    image = checksum_image (header_bytes p.ib_header)

-- ===== src/RawIbverbs/Image.antt =====
-- The bytes that the header checksum covers, as the InfiniBand specification of the invariant CRC
-- describes them: eight bytes of ones, then the headers with the fields that a router may
-- change read as ones. It works on the wire's bytes, and knows nothing of the structs.
use ibverb_prototype.Prelude.{ℕ, ◌+◌, ◌*◌, ◌/◌, List, ◌∷◌, ◌++◌, replicate, take, drop}

-- Byte 0 is the version and half of the traffic class, bytes 1 to 3 the rest of the class and
-- the flow label, byte 7 the hop limit.
unfoldable pub variant_grh : List ℕ → List ℕ
variant_grh (v ∷ f₁ ∷ f₂ ∷ f₃ ∷ l₁ ∷ l₂ ∷ n ∷ hop ∷ rest) =
    (v / 16 * 16 + 15) ∷ 0xff ∷ 0xff ∷ 0xff ∷ l₁ ∷ l₂ ∷ n ∷ 0xff ∷ rest
variant_grh short = short

-- Byte 4 of the transport header is reserved.
unfoldable pub variant_bth : List ℕ → List ℕ
variant_bth (o ∷ s ∷ p₁ ∷ p₂ ∷ r ∷ rest) = o ∷ s ∷ p₁ ∷ p₂ ∷ 0xff ∷ rest
variant_bth short = short

-- Over the 60 bytes of the headers.
unfoldable pub checksum_image : List ℕ → List ℕ
unfolding variant_grh variant_bth
checksum_image wire = replicate 8 0xff ++ (variant_grh (take 40 wire) ++ variant_bth (drop 40 wire))

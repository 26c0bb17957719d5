-- ===== src/Crc/Reference.antt =====
-- CRC-32 as a shift register that takes the message bit by bit, the description that
-- IEEE 802.3 gives (reflected, polynomial 0xEDB88320). It is independent of the table.
use ibverb_prototype.Prelude.{ℕ, zero, suc, ◌/◌, ◌%◌, bit_xor, ◌==◌, if◌then◌else◌, List, [], ◌∷◌}

abbrev pub polynomial : ℕ
polynomial = 0xedb88320

-- One bit of the message: the register shifts, and the polynomial is added if the bit that
-- drops out differs from the message's.
unfoldable pub shift_in : ℕ → ℕ → ℕ
shift_in c bit = if c % 2 == bit then c / 2 else bit_xor (c / 2) polynomial

-- The low k bits of d, lowest first.
unfoldable pub feed_bits : ℕ → ℕ → ℕ → ℕ
feed_bits zero c d = c
feed_bits (suc k) c d = feed_bits k (shift_in c (d % 2)) (d / 2)

unfoldable pub register : ℕ → List ℕ → ℕ
register c [] = c
register c (d ∷ ds) = register (feed_bits 8 c d) ds

-- The register starts and ends complemented.
unfoldable pub bitwise_crc : ℕ → List ℕ → ℕ
bitwise_crc c ds = bit_xor (register (bit_xor c 0xffffffff) ds) 0xffffffff

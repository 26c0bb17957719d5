-- ===== src/Crc.antt =====
-- crc32.h: the table-driven CRC-32 that the host and the FPGA kernel share.
pub mod Table
pub mod Reference
pub mod Linear
pub mod Correct
pub mod Chunks
pub mod Detect
mod Tests
use ibverb_prototype.Prelude.{
  ℕ, zero, suc, ◌^◌, ◌/◌, ◌%◌, bit_xor, bit_and, ltb, if◌then◌else◌, Option, none, some, ◌>>=◌,
  List, [], ◌∷◌, get_elem?,
}
use Table.{crc32table}

-- How many rounds `for (int i = 0; i < (int) size; i++)` makes: the cast keeps the low 32 bits
-- of the size, and a negative bound ends the loop at once.
unfoldable pub rounds : ℕ → ℕ
rounds size = if ltb (size % 2 ^ 32) (2 ^ 31) then size % 2 ^ 32 else 0

-- The loop with `n` rounds left, over the bytes from `data + i` to the end of their object.
-- `none` is a read past that end.
unfoldable pub crc_loop : ℕ → ℕ → List ℕ → Option ℕ
crc_loop zero crc bytes = some crc
crc_loop (suc n) crc [] = none
crc_loop (suc n) crc (d ∷ bytes) = get_elem? crc32table (bit_xor (bit_and crc 0xff) d) >>= λ entry.
    crc_loop n (bit_xor entry (crc / 2 ^ 8)) bytes

-- `crc32`.
unfoldable pub crc32 : ℕ → List ℕ → ℕ → Option ℕ
unfolding rounds
crc32 crc bytes size =
    crc_loop (rounds size) (bit_xor crc 0xffffffff) bytes >>= λ c. some (bit_xor c 0xffffffff)

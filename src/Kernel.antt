-- ===== src/Kernel.antt =====
-- ibverbs.cl: the FPGA's kernel, which completes a packet by its checksum and writes it to a channel in
-- lines of 32 bytes.
pub mod Lines
pub mod Framing
pub mod Whole
pub mod Frame
mod Tests
use ibverb_prototype.Prelude.{
  ℕ, zero, suc, ◌+◌, ◌-◌, ◌*◌, ◌/◌, ◌%◌, ◌^◌, ltb, leb, ◌==◌, bit_or, Bool, true, false,
  if◌then◌else◌, Option, none, some, ◌>>=◌, List, [], ◌∷◌, ◌++◌, length, take, drop, memcpy, bits,
  le_bytes,
}
use ibverb_prototype.Crc.{crc32}
use ibverb_prototype.Packet.{msg_size}

-- `FLAG_FIRST` and `FLAG_LAST`.
abbrev pub flag_first : ℕ
flag_first = 0x01

abbrev pub flag_last : ℕ
flag_last = 0x02

-- `struct line`.
pub record ChannelLine : Type 0 where
  pub payload : List ℕ
  pub flags : ℕ

-- The size of the array `data`.
abbrev pub data_size : ℕ
data_size = msg_size + 100

-- The flags of line i of a packet of `size` bytes, an `unsigned`.
unfoldable pub line_flags : ℕ → ℕ → ℕ
line_flags size i =
    let first : ℕ = if i == 0 then bit_or 0 flag_first else 0 in
    if i == (size - 1) / 32
    then bits 8 (bit_or first (bit_or flag_last ((2 ^ 32 - size) % 2 ^ 32 % 32 * 2 ^ 3)))
    else first

-- The loop `for (i = 0; 32 * i < size; i++)` from i on. The fuel is a bound on its rounds; `none`
-- is a line that ends behind the array.
unfoldable pub write_lines : ℕ → ℕ → ℕ → List ℕ → Option (List ChannelLine)
unfolding line_flags
write_lines zero size i bytes = none
write_lines (suc fuel) size i bytes =
    let rest = write_lines fuel size (i + 1) bytes in
    let line : ChannelLine = record {
      payload = take 32 (drop (32 * i) bytes);
      flags = line_flags size i;
    } in
    if ltb (32 * i) size
    then (if leb (32 * i + 32) (length bytes)
        then (rest >>= λ lines. some (line ∷ lines))
        else none)
    else some []

-- `*((unsigned*) &data[at]) = word`, for an offset that leaves room for it.
unfoldable pub store : List ℕ → ℕ → ℕ → Option (List ℕ)
store bytes at word =
    if leb (at + 4) (length bytes)
    then some (take at bytes ++ (le_bytes 4 word ++ drop (at + 4) bytes))
    else none

-- `write_ibverb_packet`, on the bytes that `data` holds before; the rounds are at most one per byte. Every
-- line goes to the first channel, whatever `chan` is.
unfoldable pub write_ibverb_packet : List ℕ → ℕ → ℕ → List ℕ → Option (List ChannelLine)
unfolding write_lines store
write_ibverb_packet header header_crc header_size bytes =
    if leb header_size (length header)
    then (let filled = memcpy bytes header header_size in
        crc32 header_crc (drop header_size filled) msg_size >>= λ foo.
        store filled (header_size + msg_size) foo >>= λ packet.
        let size : ℕ = header_size + msg_size + 4 in write_lines (suc size) size 0 packet)
    else none

-- ===== src/Crc/Tests.antt =====
-- The checksum at known inputs, and the theorems of this component at concrete inputs.
use ibverb_prototype.Prelude.{ℕ, ◌≡◌, ◌≢◌, refl, arith, none, some, ◌>>=◌, List, [], ◌∷◌, ◌++◌}
use ibverb_prototype.Crc.{crc32, crc_loop}
use ibverb_prototype.Crc.Table.{crc32table}
use ibverb_prototype.Crc.Reference.{bitwise_crc, register, feed_bits, shift_in}
use ibverb_prototype.Crc.Correct.{crc32-bitwise_crc}
use ibverb_prototype.Crc.Chunks.{crc32-append}
use ibverb_prototype.Crc.Detect.{crc32-detects_burst}

-- "123456789", on which every description of CRC-32 states the result.
abbrev nine : List ℕ
nine = b'1' ∷ b'2' ∷ b'3' ∷ b'4' ∷ b'5' ∷ b'6' ∷ b'7' ∷ b'8' ∷ b'9' ∷ []

crc32-nine : crc32 0 nine 9 ≡ some 0xcbf43926
unfolding crc32 crc_loop crc32table
crc32-nine = refl

bitwise_crc-nine : bitwise_crc 0 nine ≡ 0xcbf43926
unfolding bitwise_crc register feed_bits shift_in
bitwise_crc-nine = refl

crc32_negative_size : crc32 7 nine 0xffffffff ≡ some 7
unfolding crc32 crc_loop
crc32_negative_size = refl

crc32-bitwise_crc_example : crc32 0 nine 10 ≡ none
crc32-bitwise_crc_example = crc32-bitwise_crc 0 nine 10 (omega arith) (omega arith)

crc32-append_example : (crc32 5 nine 9 >>= λ c. crc32 c nine 9) ≡ crc32 5 (nine ++ nine) 18
crc32-append_example = crc32-append 5 nine nine (omega arith) (omega arith) (omega arith)

abbrev two : List ℕ
two = 1 ∷ 2 ∷ []

abbrev three : List ℕ
three = 1 ∷ 3 ∷ []

crc32-detects_burst_example :
    crc32 0 (nine ++ (two ++ nine)) 20 ≢ crc32 0 (nine ++ (three ++ nine)) 20
crc32-detects_burst_example =
    crc32-detects_burst two three (omega arith) (omega arith) refl (omega arith) 0 nine nine
      (omega arith) (omega arith) (omega arith) (omega arith) (ground arith)

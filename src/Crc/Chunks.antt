-- ===== src/Crc/Chunks.antt =====
-- A checksum that is continued: the result of one call is the start of the next.
use ibverb_prototype.Prelude.{
  ℕ, ◌+◌, ◌^◌, ◌<◌, ◌≡◌, refl, ap, ◌∙◌, sym, arith, bit_xor, bit_xor_cancel, some, ◌>>=◌, List, [],
  ◌∷◌, ◌++◌, length, All, All-append, take-all, length-append,
}
use ibverb_prototype.Crc.{crc32}
use ibverb_prototype.Crc.Reference.{feed_bits, register, bitwise_crc}
use ibverb_prototype.Crc.Correct.{IsByte, crc32-fits}

pub register-append : (c : ℕ) (xs ys : List ℕ) → register c (xs ++ ys) ≡ register (register c xs) ys
unfolding register
register-append c [] ys = refl
register-append c (x ∷ xs) ys = register-append (feed_bits 8 c x) xs ys

-- The complement between two chunks cancels.
pub bitwise_crc-append :
    (c : ℕ) (xs ys : List ℕ) → bitwise_crc c (xs ++ ys) ≡ bitwise_crc (bitwise_crc c xs) ys
unfolding bitwise_crc
bitwise_crc-append c xs ys = rw (bit_xor_cancel, register-append (bit_xor c 0xffffffff) xs ys) refl

-- A call on a whole object of fewer than 2 ^ 31 bytes.
pub crc32_whole :
    (c : ℕ) (xs : List ℕ)
    → All IsByte xs
    → length xs < 2 ^ 31
    → crc32 c xs (length xs) ≡ some (bitwise_crc c xs)
crc32_whole c xs b small =
    crc32-fits c xs (length xs) b small (omega arith)
    ∙ ap (λ l. some (bitwise_crc c l)) (take-all xs)

-- Continuing the checksum of one object over another gives the checksum of the two objects laid
-- end to end, for objects of bytes of fewer than 2 ^ 31 bytes together.
pub crc32-append :
    (c : ℕ) (xs ys : List ℕ)
    → All IsByte xs
    → All IsByte ys
    → length xs + length ys < 2 ^ 31
    → (crc32 c xs (length xs) >>= λ c'. crc32 c' ys (length ys))
      ≡ crc32 c (xs ++ ys) (length (xs ++ ys))
crc32-append c xs ys bx by small =
    ap (λ o. o >>= λ c'. crc32 c' ys (length ys)) (crc32_whole c xs bx (omega arith))
    ∙ crc32_whole (bitwise_crc c xs) ys by (omega arith)
    ∙ ap some (sym (bitwise_crc-append c xs ys))
    ∙ sym (
        crc32_whole c (xs ++ ys) (All-append IsByte xs ys bx by)
          (omega (arith, length-append xs ys)))

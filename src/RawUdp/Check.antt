-- ===== src/RawUdp/Check.antt =====
-- `ipv4check` against the Internet checksum, the complement of the ones' complement sum.
use ibverb_prototype.Prelude.{
  ℕ, zero, suc, ◌+◌, ◌-◌, ◌*◌, ◌/◌, ◌%◌, ◌^◌, ◌≤◌, ◌<◌, ◌≡◌, refl, ap, ◌∙◌, arith, ltb, some, List,
  [], ◌∷◌, length, All, if◌then◌else◌,
}
use native.Mathlib.Nat.{zero-add}
use ibverb_prototype.Crc.Correct.{IsByte}
use ibverb_prototype.RawUdp.{sum_words, fold_carries, ipv4check}

-- Addition of 16-bit numbers in ones' complement: the carry comes round to the lowest bit.
unfoldable pub ones_add : ℕ → ℕ → ℕ
ones_add a b = if ltb (a + b) (2 ^ 16) then a + b else a + b + 1 - 2 ^ 16

-- The ones' complement sum of the 16-bit words that the bytes hold, each added by itself.
unfoldable pub ones_sum : List ℕ → ℕ
unfolding ones_add
ones_sum [] = 0
ones_sum (low ∷ []) = 0
ones_sum (low ∷ high ∷ bytes) = ones_add (low + high * 2 ^ 8) (ones_sum bytes)

-- The sum of the words.
unfoldable pub total : List ℕ → ℕ
total [] = 0
total (low ∷ []) = 0
total (low ∷ high ∷ bytes) = low + high * 2 ^ 8 + total bytes

-- The number from 1 to 2 ^ 16 - 1 that is the sum modulo 2 ^ 16 - 1, or 0 for 0.
abbrev pub end_around : ℕ → ℕ
end_around zero = 0
end_around (suc s) = s % 65535 + 1

pub fold_carries-end_around : (s : ℕ) → s < 2 ^ 31 → fold_carries s % 2 ^ 16 ≡ end_around s
unfolding fold_carries
fold_carries-end_around zero h = refl
fold_carries-end_around (suc s) h = omega arith

ones_add-end_around : (a s : ℕ) → a < 2 ^ 16 → ones_add a (end_around s) ≡ end_around (a + s)
unfolding ones_add
ones_add-end_around zero zero h = refl
ones_add-end_around zero (suc s) h = ground arith
ones_add-end_around (suc a) zero h = ground arith
ones_add-end_around (suc a) (suc s) h = ground arith

pub ones_sum-end_around :
    (bytes : List ℕ) → All IsByte bytes → ones_sum bytes ≡ end_around (total bytes)
unfolding ones_sum total
ones_sum-end_around [] h = refl
ones_sum-end_around (low ∷ []) h = refl
ones_sum-end_around (low ∷ high ∷ bytes) (lo, (hi, h)) =
    ap (ones_add (low + high * 2 ^ 8)) (ones_sum-end_around bytes h)
    ∙ ones_add-end_around (low + high * 2 ^ 8) (total bytes) (omega arith)

-- The loop adds up the words, as long as the sum stays below 2 ^ 31.
pub sum_words-total :
    (n sum : ℕ) (bytes : List ℕ)
    → length bytes ≡ 2 * n
    → All IsByte bytes
    → sum + 65535 * n < 2 ^ 31
    → sum_words n sum bytes ≡ some (sum + total bytes)
unfolding sum_words total
sum_words-total zero sum [] l h fits = ap some (omega arith)
sum_words-total zero sum (low ∷ bytes) l h fits = absurd (omega arith)
sum_words-total (suc n) sum [] l h fits = absurd (omega arith)
sum_words-total (suc n) sum (low ∷ []) l h fits = absurd (omega arith)
sum_words-total (suc n) sum (low ∷ high ∷ bytes) l (lo, (hi, h)) fits =
    ground
      (arith, sum_words-total n (sum + (low + high * 2 ^ 8)) bytes (omega arith) h (omega arith))

total_le :
    (n : ℕ) (bytes : List ℕ) → length bytes ≡ 2 * n → All IsByte bytes → total bytes ≤ 65535 * n
unfolding total
total_le zero [] l h = omega arith
total_le zero (low ∷ bytes) l h = absurd (omega arith)
total_le (suc n) [] l h = absurd (omega arith)
total_le (suc n) (low ∷ []) l h = absurd (omega arith)
total_le (suc n) (low ∷ high ∷ bytes) l (lo, (hi, h)) =
    omega (arith, total_le n bytes (omega arith) h)

-- For an even number of bytes, at most 65536 and at least two: `ipv4check` returns the
-- complement of the ones' complement sum of the words, and reads nothing but these bytes.
pub ipv4check-ones_sum :
    (bytes : List ℕ) (n : ℕ)
    → length bytes ≡ 2 * suc n
    → suc n ≤ 2 ^ 15
    → All IsByte bytes
    → ipv4check bytes (2 * suc n) ≡ some (2 ^ 16 - 1 - ones_sum bytes)
unfolding ipv4check
ipv4check-ones_sum bytes n l fits h =
    let rounds : 1 + (2 * suc n - 1) / 2 ≡ suc n = omega arith in
    let below : total bytes < 2 ^ 31 = omega (arith, total_le (suc n) bytes l h) in
    rw
      (
        rounds,
        sum_words-total (suc n) 0 bytes l h (omega arith),
        zero-add (total bytes),
        fold_carries-end_around (total bytes) below,
        ones_sum-end_around bytes h,
      )
      refl

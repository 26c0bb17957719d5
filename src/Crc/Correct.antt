-- ===== src/Crc/Correct.antt =====
-- The table-driven loop of crc32.h against the shift register.
use ibverb_prototype.Prelude.{
  ℕ, zero, suc, ◌/◌, ◌%◌, ◌^◌, ◌≤◌, ◌<◌, ◌≡◌, refl, sym, ap, ◌∙◌, arith, bit_xor, ◌==◌, ==_iff,
  Bool, true, false, Option, none, some, ◌>>=◌, all_below, all_below_sound, leb, if◌then◌else◌,
  Bool-cases, inl, inr, List, [], ◌∷◌, get_elem?, length, take, All, bit_and_byte, bit_xor-lt,
}
use ibverb_prototype.Crc.{crc32, crc_loop, rounds}
use ibverb_prototype.Crc.Table.{crc32table}
use ibverb_prototype.Crc.Reference.{feed_bits, register, bitwise_crc}
use ibverb_prototype.Crc.Linear.{shift, shifts, shifts_byte, feed_bits-shifts, shifts-lt}

abbrev pub IsByte : ℕ → Type 0
IsByte d = d < 256

abbrev pub IsWord : ℕ → Type 0
IsWord c = c < 2 ^ 32

holds : Option ℕ → ℕ → Bool
holds none n = false
holds (some m) n = m == n

holds_sound : (o : Option ℕ) (n : ℕ) → holds o n ≡ true → o ≡ some n
unfolding holds
holds_sound none n h = ground arith
holds_sound (some m) n h = ap some ((==_iff m n).0 h)

entries_checked : all_below 256 (λ i. holds (get_elem? crc32table i) (shifts 8 i)) ≡ true
unfolding all_below holds crc32table shifts shift
entries_checked = refl

-- Every entry of the table is eight shifts of its index.
pub crc32table-shifts : (i : ℕ) → i < 256 → get_elem? crc32table i ≡ some (shifts 8 i)
crc32table-shifts i h = holds_sound _ _ (all_below_sound 256 _ i entries_checked h)

-- One round of the loop takes one byte into the register.
round-feed_bits :
    (c d n : ℕ) (ds : List ℕ)
    → IsByte d
    → crc_loop (suc n) c (d ∷ ds) ≡ crc_loop n (feed_bits 8 c d) ds
unfolding crc_loop
round-feed_bits c d n ds h =
    ap (λ t. get_elem? crc32table (bit_xor t d) >>= λ e. crc_loop n (bit_xor e (c / 2 ^ 8)) ds)
      (bit_and_byte c)
    ∙ ap (λ o. o >>= λ e. crc_loop n (bit_xor e (c / 2 ^ 8)) ds)
        (crc32table-shifts (bit_xor (c % 256) d)
          (bit_xor-lt 8 (c % 256) d (omega arith) (omega arith)))
    ∙ ap (λ t. crc_loop n t ds) (sym (shifts_byte c d) ∙ sym (feed_bits-shifts 8 c d (omega arith)))

pub crc_loop-register :
    (n c : ℕ) (ds : List ℕ)
    → n ≤ length ds
    → All IsByte ds
    → crc_loop n c ds ≡ some (register c (take n ds))
unfolding register
crc_loop-register zero c ds h b = unfold crc_loop in refl
crc_loop-register (suc n) c [] h b = absurd (omega arith)
crc_loop-register (suc n) c (d ∷ ds) h b =
    round-feed_bits c d n ds b.0 ∙ crc_loop-register n (feed_bits 8 c d) ds (omega arith) b.1

crc_loop_overrun : (n c : ℕ) (ds : List ℕ) → length ds < n → All IsByte ds → crc_loop n c ds ≡ none
crc_loop_overrun zero c ds h b = absurd (omega arith)
crc_loop_overrun (suc n) c [] h b = unfold crc_loop in refl
crc_loop_overrun (suc n) c (d ∷ ds) h b =
    round-feed_bits c d n ds b.0 ∙ crc_loop_overrun n (feed_bits 8 c d) ds (omega arith) b.1

rounds_small : (size : ℕ) → size < 2 ^ 31 → rounds size ≡ size
unfolding rounds
rounds_small size h = ground arith

-- The loop over `n` bytes, in one equation for both ends.
loop_outcome :
    (n c : ℕ) (ds : List ℕ)
    → All IsByte ds
    → crc_loop n c ds ≡ (if leb n (length ds) then some (register c (take n ds)) else none)
loop_outcome n c ds b = elim (Bool-cases (leb n (length ds))) [
  | inl fits ↦ rw fits (crc_loop-register n c ds (ground arith) b)
  | inr over ↦ rw over (crc_loop_overrun n c ds (ground arith) b)
]

-- For a size of less than 2 ^ 31 and an object of bytes, `crc32` returns the bitwise CRC-32 of
-- exactly the first `size` bytes of the object; if the object has fewer bytes, it reads past
-- the object's end.
pub crc32-bitwise_crc :
    (crc : ℕ) (ds : List ℕ) (size : ℕ)
    → All IsByte ds
    → size < 2 ^ 31
    → crc32 crc ds size
      ≡ (if leb size (length ds) then some (bitwise_crc crc (take size ds)) else none)
unfolding crc32 bitwise_crc
crc32-bitwise_crc crc ds size b small =
    rw (rounds_small size small, loop_outcome size (bit_xor crc 0xffffffff) ds b) (ground arith)

-- The same, for a size that the object covers.
pub crc32-fits :
    (crc : ℕ) (ds : List ℕ) (size : ℕ)
    → All IsByte ds
    → size < 2 ^ 31
    → size ≤ length ds
    → crc32 crc ds size ≡ some (bitwise_crc crc (take size ds))
crc32-fits crc ds size b small fits = ground (arith, crc32-bitwise_crc crc ds size b small)

pub feed_bits-IsWord : (c d : ℕ) → IsWord c → IsByte d → IsWord (feed_bits 8 c d)
feed_bits-IsWord c d h b =
    rw (feed_bits-shifts 8 c d (omega arith))
      (shifts-lt 8 (bit_xor c d) (bit_xor-lt 32 c d h (omega arith)))

pub register-IsWord : (c : ℕ) (ds : List ℕ) → IsWord c → All IsByte ds → IsWord (register c ds)
unfolding register
register-IsWord c [] h b = h
register-IsWord c (d ∷ ds) h b =
    register-IsWord (feed_bits 8 c d) ds (feed_bits-IsWord c d h b.0) b.1

-- The checksum of bytes is a 32-bit word.
pub bitwise_crc-IsWord :
    (c : ℕ) (ds : List ℕ) → IsWord c → All IsByte ds → IsWord (bitwise_crc c ds)
unfolding bitwise_crc
bitwise_crc-IsWord c ds h b =
    bit_xor-lt 32 _ _ (register-IsWord _ ds (bit_xor-lt 32 c _ h (omega arith)) b) (omega arith)

-- ===== src/Crc/Detect.antt =====
-- The checksum of crc32.h on messages that differ only within four consecutive bytes.
use ibverb_prototype.Prelude.{
  ℕ, zero, suc, ◌+◌, ◌*◌, ◌/◌, ◌^◌, ◌≤◌, ◌<◌, ◌≡◌, ◌≢◌, refl, ap, ap₂, ◌∙◌, sym, arith, bit_xor,
  bit_xor_cancel, bit_xor_comm, bit_xor_assoc, bit_xor_self, zero-bit_xor, bit_xor-zero, bit_xor-lt,
  bit_xor_fields, some, List, [], ◌∷◌, ◌++◌, length, length-append, All, All-append, ◌≡⟨◌⟩◌, ◌∎,
}
use native.Mathlib.Nat.{zero-add, suc-add, add_comm}
use ibverb_prototype.Crc.{crc32}
use ibverb_prototype.Crc.Reference.{polynomial, feed_bits, register, bitwise_crc}
use ibverb_prototype.Crc.Linear.{
  shift, shifts, shift-bit_xor, shifts-bit_xor, shifts_multiple, feed_bits-shifts, shift-lt,
}
use ibverb_prototype.Crc.Correct.{IsByte, IsWord, feed_bits-IsWord, register-IsWord}
use ibverb_prototype.Crc.Chunks.{crc32_whole, register-append}

eq_of_bit_xor-zero : (a b : ℕ) → bit_xor a b ≡ 0 → a ≡ b
eq_of_bit_xor-zero a b h = sym (bit_xor_cancel a b) ∙ ap (λ t. bit_xor t b) h ∙ zero-bit_xor b

bit_xor_right_cancel : (a b c : ℕ) → bit_xor a c ≡ bit_xor b c → a ≡ b
bit_xor_right_cancel a b c h =
    sym (bit_xor_cancel a c) ∙ ap (λ t. bit_xor t c) h ∙ bit_xor_cancel b c

-- The polynomial's highest term is never lost, so a shift loses nothing.
shift-ne-zero : (c : ℕ) → IsWord c → shift c ≡ 0 → c ≡ 0
unfolding shift
shift-ne-zero c w h = ground (arith, eq_of_bit_xor-zero (c / 2) polynomial)

shift-injective : (a b : ℕ) → IsWord a → IsWord b → shift a ≡ shift b → a ≡ b
shift-injective a b wa wb h = eq_of_bit_xor-zero a b (
    shift-ne-zero (bit_xor a b) (bit_xor-lt 32 a b wa wb)
      (shift-bit_xor a b ∙ ap (λ t. bit_xor t (shift b)) h ∙ bit_xor_self (shift b)))

shifts-injective : (k a b : ℕ) → IsWord a → IsWord b → shifts k a ≡ shifts k b → a ≡ b
unfolding shifts
shifts-injective zero a b wa wb h = h
shifts-injective (suc k) a b wa wb h =
    shift-injective a b wa wb
      (shifts-injective k (shift a) (shift b) (shift-lt a wa) (shift-lt b wb) h)

-- The bytes of an object as one number, lowest byte first.
little_endian : List ℕ → ℕ
little_endian [] = 0
little_endian (d ∷ ds) = little_endian ds * 256 + d

-- The digits that the bytes ds fill: eight for each.
digit_count : List ℕ → ℕ
digit_count [] = 0
digit_count (d ∷ ds) = digit_count ds + 8

shifts-add : (k m c : ℕ) → shifts (k + m) c ≡ shifts m (shifts k c)
unfolding shifts
shifts-add zero m c = ap (λ n. shifts n c) (zero-add m)
shifts-add (suc k) m c = ap (λ n. shifts n c) (suc-add k m) ∙ shifts-add k m (shift c)

-- Taking in a block of bytes is shifting the register with the block added as one number.
register-shifts :
    (c : ℕ) (ds : List ℕ)
    → All IsByte ds
    → register c ds ≡ shifts (digit_count ds) (bit_xor c (little_endian ds))
unfolding register little_endian digit_count
register-shifts c [] b = unfold shifts in sym (bit_xor-zero c)
register-shifts c (d ∷ ds) b =
    register (feed_bits 8 c d) ds
    ≡⟨ register-shifts (feed_bits 8 c d) ds b.1 ⟩ shifts k (bit_xor (feed_bits 8 c d) w)
    ≡⟨ ap (λ t. shifts k (bit_xor t w)) (feed_bits-shifts 8 c d (omega arith)) ⟩
      shifts k (bit_xor (shifts 8 (bit_xor c d)) w)
    ≡⟨ ap (λ t. shifts k (bit_xor (shifts 8 (bit_xor c d)) t)) (sym (shifts_multiple 8 w)) ⟩
      shifts k (bit_xor (shifts 8 (bit_xor c d)) (shifts 8 (w * 256)))
    ≡⟨ ap (shifts k) (sym (shifts-bit_xor 8 (bit_xor c d) (w * 256))) ⟩
      shifts k (shifts 8 (bit_xor (bit_xor c d) (w * 256)))
    ≡⟨ ap (λ t. shifts k (shifts 8 t)) joined ⟩ shifts k (shifts 8 (bit_xor c (w * 256 + d)))
    ≡⟨ sym (shifts-add 8 k (bit_xor c (w * 256 + d)))
      ∙ ap (λ n. shifts n (bit_xor c (w * 256 + d))) (add_comm 8 k) ⟩
      shifts (k + 8) (bit_xor c (w * 256 + d)) ∎
  where
    k : ℕ
    k = digit_count ds

    w : ℕ
    w = little_endian ds

    joined : bit_xor (bit_xor c d) (w * 256) ≡ bit_xor c (w * 256 + d)
    joined =
        bit_xor_assoc c d (w * 256)
        ∙ ap (bit_xor c) (bit_xor_comm d (w * 256) ∙ bit_xor_fields 8 w d (omega arith))

-- Four bytes at most fit a word, and the number determines them.
little_endian-IsWord : (ds : List ℕ) → All IsByte ds → length ds ≤ 4 → IsWord (little_endian ds)
unfolding little_endian
little_endian-IsWord [] b h = omega arith
little_endian-IsWord (d ∷ []) b h = omega arith
little_endian-IsWord (d ∷ e ∷ []) b h = omega arith
little_endian-IsWord (d ∷ e ∷ f ∷ []) b h = omega arith
little_endian-IsWord (d ∷ e ∷ f ∷ g ∷ []) b h = omega arith
little_endian-IsWord (d ∷ e ∷ f ∷ g ∷ x ∷ ds) b h = absurd (omega arith)

little_endian-injective :
    (ds es : List ℕ)
    → All IsByte ds
    → All IsByte es
    → length ds ≡ length es
    → little_endian ds ≡ little_endian es
    → ds ≡ es
unfolding little_endian
little_endian-injective [] [] b c l h = refl
little_endian-injective [] (e ∷ es) b c l h = absurd (omega arith)
little_endian-injective (d ∷ ds) [] b c l h = absurd (omega arith)
little_endian-injective (d ∷ ds) (e ∷ es) b c l h =
    ap₂ ◌∷◌ (omega arith) (little_endian-injective ds es b.1 c.1 (omega arith) (omega arith))

digit_count-length : (ds es : List ℕ) → length ds ≡ length es → digit_count ds ≡ digit_count es
unfolding digit_count
digit_count-length [] [] l = refl
digit_count-length [] (e ∷ es) l = absurd (omega arith)
digit_count-length (d ∷ ds) [] l = absurd (omega arith)
digit_count-length (d ∷ ds) (e ∷ es) l = omega (arith, digit_count-length ds es (omega arith))

feed_bits-injective :
    (a b d : ℕ) → IsWord a → IsWord b → IsByte d → feed_bits 8 a d ≡ feed_bits 8 b d → a ≡ b
feed_bits-injective a b d wa wb y h = bit_xor_right_cancel a b d (
    shifts-injective 8 (bit_xor a d) (bit_xor b d) (bit_xor-lt 32 a d wa (omega arith))
      (bit_xor-lt 32 b d wb (omega arith))
      (sym (feed_bits-shifts 8 a d (omega arith)) ∙ h ∙ feed_bits-shifts 8 b d (omega arith)))

register-injective :
    (a b : ℕ) (ys : List ℕ)
    → IsWord a
    → IsWord b
    → All IsByte ys
    → register a ys ≡ register b ys
    → a ≡ b
unfolding register
register-injective a b [] wa wb y h = h
register-injective a b (d ∷ ys) wa wb y h = feed_bits-injective a b d wa wb y.0 (
    register-injective (feed_bits 8 a d) (feed_bits 8 b d) ys (feed_bits-IsWord a d wa y.0)
      (feed_bits-IsWord b d wb y.0) y.1 h)

some_injective : {a b : ℕ} → some a ≡ some b → a ≡ b
some_injective h = cc

module _ (ds es : List ℕ) (bd : All IsByte ds) (be : All IsByte es)
    (same_length : length ds ≡ length es) (short : length ds ≤ 4) where
  block-injective : (c : ℕ) → IsWord c → register c ds ≡ register c es → ds ≡ es
  block-injective c w h = little_endian-injective ds es bd be same_length (
      bit_xor_right_cancel (little_endian ds) (little_endian es) c (
        bit_xor_comm (little_endian ds) c
        ∙ shifts-injective (digit_count ds) _ _ (added ds bd short) (added es be (omega arith)) (
            sym (register-shifts c ds bd)
            ∙ h
            ∙ register-shifts c es be
            ∙ ap (λ n. shifts n (bit_xor c (little_endian es)))
                (sym (digit_count-length ds es same_length)))
        ∙ bit_xor_comm c (little_endian es)))
    where
      added : (fs : List ℕ) → All IsByte fs → length fs ≤ 4 → IsWord (bit_xor c (little_endian fs))
      added fs b s = bit_xor-lt 32 c (little_endian fs) w (little_endian-IsWord fs b s)

  -- Two messages of equal length below 2 ^ 31 bytes that differ, and differ only within at most
  -- four consecutive bytes, get different results from `crc32` from one 32-bit start.
  pub crc32-detects_burst :
      (c : ℕ) (xs ys : List ℕ)
      → IsWord c
      → All IsByte xs
      → All IsByte ys
      → length (xs ++ (ds ++ ys)) < 2 ^ 31
      → ds ≢ es
      → crc32 c (xs ++ (ds ++ ys)) (length (xs ++ (ds ++ ys)))
        ≢ crc32 c (xs ++ (es ++ ys)) (length (xs ++ (es ++ ys)))
  unfolding bitwise_crc
  crc32-detects_burst c xs ys w bx by small differ h = differ (
      block-injective start started (
        register-injective _ _ ys (register-IsWord start ds started bd)
          (register-IsWord start es started be) by (sym (parts ds) ∙ registers ∙ parts es)))
    where
      c₀ : ℕ
      c₀ = bit_xor c 0xffffffff

      start : ℕ
      start = register c₀ xs

      started : IsWord start
      started = register-IsWord c₀ xs (bit_xor-lt 32 c _ w (omega arith)) bx

      parts : (fs : List ℕ) → register c₀ (xs ++ (fs ++ ys)) ≡ register (register start fs) ys
      parts fs = register-append c₀ xs (fs ++ ys) ∙ register-append start fs ys

      lengths : (fs : List ℕ) → length (xs ++ (fs ++ ys)) ≡ length xs + (length fs + length ys)
      lengths fs = omega (arith, length-append xs (fs ++ ys), length-append fs ys)

      value :
          (fs : List ℕ)
          → All IsByte fs
          → length fs ≡ length ds
          → crc32 c (xs ++ (fs ++ ys)) (length (xs ++ (fs ++ ys)))
            ≡ some (bitwise_crc c (xs ++ (fs ++ ys)))
      value fs b l =
          crc32_whole c (xs ++ (fs ++ ys))
            (All-append IsByte xs (fs ++ ys) bx (All-append IsByte fs ys b by))
            (omega (arith, lengths fs, lengths ds))

      registers : register c₀ (xs ++ (ds ++ ys)) ≡ register c₀ (xs ++ (es ++ ys))
      registers =
          bit_xor_right_cancel _ _ 0xffffffff
            (some_injective (sym (value ds bd refl) ∙ h ∙ value es be (sym same_length)))

-- ===== src/Crc/Linear.antt =====
-- The shift of the register as a linear map over the exclusive or, and the table's entries as eight
-- shifts of a byte.
use ibverb_prototype.Prelude.{
  ℕ, zero, suc, ◌*◌, ◌/◌, ◌%◌, ◌^◌, ◌<◌, ◌≡◌, refl, sym, ap, ap₂, ◌∙◌, arith, bit_xor, ◌==◌,
  if◌then◌else◌, bit_xor-half, bit_xor-low, bit_xor_assoc, bit_xor_comm, bit_xor_exchange,
  bit_xor-zero, zero-bit_xor, bit_xor_self, bit_xor_fields, bit_xor-lt,
}
use native.Mathlib.Nat.{pow-suc}
use ibverb_prototype.Crc.Reference.{polynomial, shift_in, feed_bits}

-- A shift with no message bit.
unfoldable pub shift : ℕ → ℕ
shift c = if c % 2 == 0 then c / 2 else bit_xor (c / 2) polynomial

unfoldable pub shifts : ℕ → ℕ → ℕ
shifts zero c = c
shifts (suc k) c = shifts k (shift c)

-- What the shift adds to the halved register.
feedback : ℕ → ℕ
feedback c = if c % 2 == 0 then 0 else polynomial

shift-feedback : (c : ℕ) → shift c ≡ bit_xor (c / 2) (feedback c)
unfolding shift feedback
shift-feedback c = ground (arith, bit_xor-zero (c / 2))

feedback-bit_xor : (a b : ℕ) → feedback (bit_xor a b) ≡ bit_xor (feedback a) (feedback b)
unfolding feedback
feedback-bit_xor a b = ground (
  arith,
  bit_xor-low a b,
  zero-bit_xor 0,
  bit_xor-zero polynomial,
  zero-bit_xor polynomial,
  bit_xor_self polynomial,
)

pub shift-bit_xor : (a b : ℕ) → shift (bit_xor a b) ≡ bit_xor (shift a) (shift b)
shift-bit_xor a b =
    shift-feedback (bit_xor a b)
    ∙ ap₂ bit_xor (bit_xor-half a b) (feedback-bit_xor a b)
    ∙ bit_xor_exchange (a / 2) (b / 2) (feedback a) (feedback b)
    ∙ sym (ap₂ bit_xor (shift-feedback a) (shift-feedback b))

pub shifts-bit_xor : (k a b : ℕ) → shifts k (bit_xor a b) ≡ bit_xor (shifts k a) (shifts k b)
unfolding shifts
shifts-bit_xor zero a b = refl
shifts-bit_xor (suc k) a b =
    ap (shifts k) (shift-bit_xor a b) ∙ shifts-bit_xor k (shift a) (shift b)

shift-even : (q : ℕ) → shift (q * 2) ≡ q
unfolding shift
shift-even q = ground arith

pub shifts_multiple : (k q : ℕ) → shifts k (q * 2 ^ k) ≡ q
unfolding shifts
shifts_multiple zero q = omega arith
shifts_multiple (suc k) q =
    ap (λ t. shifts k (shift t)) (omega (arith, ap (λ (t : ℕ). q * t) (pow-suc 2 k)))
    ∙ ap (shifts k) (shift-even (q * 2 ^ k))
    ∙ shifts_multiple k q

-- A number is its low byte added to its other bytes.
low_byte-join : (c : ℕ) → c ≡ bit_xor (c / 256 * 256) (c % 256)
low_byte-join c = omega (arith, bit_xor_fields 8 (c / 256) (c % 256) (omega arith))

-- Eight shifts move the bytes above the low one down unchanged, so only the low byte counts.
pub shifts_byte :
    (c d : ℕ) → shifts 8 (bit_xor c d) ≡ bit_xor (shifts 8 (bit_xor (c % 256) d)) (c / 2 ^ 8)
shifts_byte c d =
    ap (λ t. shifts 8 (bit_xor t d)) (low_byte-join c)
    ∙ ap (shifts 8) (bit_xor_assoc (c / 256 * 256) (c % 256) d)
    ∙ shifts-bit_xor 8 (c / 256 * 256) (bit_xor (c % 256) d)
    ∙ ap (λ t. bit_xor t (shifts 8 (bit_xor (c % 256) d))) (shifts_multiple 8 (c / 256))
    ∙ bit_xor_comm (c / 256) (shifts 8 (bit_xor (c % 256) d))

-- A shift that takes a message bit is a shift of the register with the bit added.
shift_in-bit_xor : (c d : ℕ) → bit_xor (shift_in c (d % 2)) (d / 2) ≡ shift (bit_xor c d)
unfolding shift_in shift
shift_in-bit_xor c d = ground (
  arith,
  bit_xor-low c d,
  bit_xor-half c d,
  bit_xor_assoc (c / 2) polynomial (d / 2),
  bit_xor_assoc (c / 2) (d / 2) polynomial,
  bit_xor_comm (d / 2) polynomial,
)

pub feed_bits-shifts : (k c d : ℕ) → d < 2 ^ k → feed_bits k c d ≡ shifts k (bit_xor c d)
unfolding feed_bits shifts
feed_bits-shifts zero c zero h = sym (bit_xor-zero c)
feed_bits-shifts zero c (suc d) h = absurd (omega arith)
feed_bits-shifts (suc k) c d h =
    feed_bits-shifts k (shift_in c (d % 2)) (d / 2) (omega (arith, pow-suc 2 k))
    ∙ ap (shifts k) (shift_in-bit_xor c d)

pub shift-lt : (c : ℕ) → c < 2 ^ 32 → shift c < 2 ^ 32
unfolding shift
shift-lt c h = ground (arith, bit_xor-lt 32 (c / 2) polynomial (omega arith) (omega arith))

pub shifts-lt : (k c : ℕ) → c < 2 ^ 32 → shifts k c < 2 ^ 32
unfolding shifts
shifts-lt zero c h = h
shifts-lt (suc k) c h = shifts-lt k (shift c) (shift-lt c h)

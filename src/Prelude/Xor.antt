-- ===== src/Prelude/Xor.antt =====
-- The exclusive or of numbers, digit by digit, and the laws that it has at every width.
use Prim.Native.Nat.{ℕ, zero, suc, ◌+◌, ◌*◌, ◌/◌, ◌%◌, ◌^◌, ◌≤◌, ◌<◌, bit_xor, digits, bitwise}
use Prim.Native.Nat.{bit_xor-bitwise, differ, bit_and, bit_and-bitwise, min}
use mathlib.Core.Path.{◌≡◌, refl, sym, ap, ◌∙◌}
use native.Mathlib.Nat.{pow-suc}
use native.Mathlib.Decide.{dec_le}
use native.Mathlib.Omega.{arith}

-- The native operations stand for a recursion on digits with fuel. Past the number itself more
-- fuel changes nothing.
module _ (z : ℕ → ℕ) (f : ℕ → ℕ → ℕ) where
  one_more : (n a b : ℕ) → a ≤ n → digits z f (suc n) a b ≡ digits z f n a b
  one_more zero zero b fits = refl
  one_more zero (suc a) b fits = absurd (omega arith)
  one_more (suc n) zero b fits = refl
  one_more (suc n) (suc a) b fits =
      ap (λ high. high * 2 + f (suc a % 2) (b % 2)) (one_more n (suc a / 2) (b / 2) (omega arith))

  settled : (n a b : ℕ) → a ≤ n → digits z f n a b ≡ bitwise z f a b
  settled zero a b fits = let e : 0 ≡ a = omega arith in ap (λ m. digits z f m a b) e
  settled (suc n) a b fits = elim (dec_le a n) [
    | yes below ↦ one_more n a b below ∙ settled n a b below
    | no above ↦ let e : suc n ≡ a = omega arith in ap (λ m. digits z f m a b) e
  ]

  lowest_digit :
      (a b : ℕ)
      → bitwise z f (suc a) b ≡ bitwise z f (suc a / 2) (b / 2) * 2 + f (suc a % 2) (b % 2)
  lowest_digit a b =
      ap (λ high. high * 2 + f (suc a % 2) (b % 2)) (settled a (suc a / 2) (b / 2) (omega arith))

differ_digits : (x y : ℕ) → x < 2 → y < 2 → differ x y ≡ (x + y) % 2
differ_digits zero y p q = omega arith
differ_digits (suc zero) zero p q = refl
differ_digits (suc zero) (suc zero) p q = refl
differ_digits (suc zero) (suc (suc y)) p q = absurd (omega arith)
differ_digits (suc (suc x)) y p q = absurd (omega arith)

pub zero-bit_xor : (b : ℕ) → bit_xor 0 b ≡ b
zero-bit_xor b = bit_xor-bitwise 0 b

xor_step_differ : (a b : ℕ) → bit_xor a b ≡ bit_xor (a / 2) (b / 2) * 2 + differ (a % 2) (b % 2)
xor_step_differ zero b = omega (arith, zero-bit_xor b, zero-bit_xor (b / 2))
xor_step_differ (suc a) b = omega (
  arith,
  bit_xor-bitwise (suc a) b,
  bit_xor-bitwise (suc a / 2) (b / 2),
  lowest_digit (λ y. y) differ a b,
)

pub bit_xor_step : (a b : ℕ) → bit_xor a b ≡ bit_xor (a / 2) (b / 2) * 2 + (a + b) % 2
bit_xor_step a b =
    omega (arith, xor_step_differ a b, differ_digits (a % 2) (b % 2) (omega arith) (omega arith))

pub bit_xor-half : (a b : ℕ) → bit_xor a b / 2 ≡ bit_xor (a / 2) (b / 2)
bit_xor-half a b = omega (arith, bit_xor_step a b)

pub bit_xor-low : (a b : ℕ) → bit_xor a b % 2 ≡ (a + b) % 2
bit_xor-low a b = omega (arith, bit_xor_step a b)

eq_of_digits : (x y : ℕ) → x / 2 ≡ y / 2 → x % 2 ≡ y % 2 → x ≡ y
eq_of_digits x y p q = omega arith

comm_fuel : (n a b : ℕ) → a ≤ n → b ≤ n → bit_xor a b ≡ bit_xor b a
comm_fuel zero zero zero p q = refl
comm_fuel zero zero (suc b) p q = absurd (omega arith)
comm_fuel zero (suc a) b p q = absurd (omega arith)
comm_fuel (suc n) a b p q =
    eq_of_digits _ _
      (bit_xor-half a b
        ∙ comm_fuel n (a / 2) (b / 2) (omega arith) (omega arith)
        ∙ sym (bit_xor-half b a))
      (omega (arith, bit_xor-low a b, bit_xor-low b a))

pub bit_xor_comm : (a b : ℕ) → bit_xor a b ≡ bit_xor b a
bit_xor_comm a b = comm_fuel (a + b) a b (omega arith) (omega arith)

pub bit_xor-zero : (a : ℕ) → bit_xor a 0 ≡ a
bit_xor-zero a = bit_xor_comm a 0 ∙ zero-bit_xor a

assoc_fuel :
    (n a b c : ℕ) → a ≤ n → b ≤ n → c ≤ n → bit_xor (bit_xor a b) c ≡ bit_xor a (bit_xor b c)
assoc_fuel zero zero b c p q r = rw (zero-bit_xor b) (sym (zero-bit_xor _))
assoc_fuel zero (suc a) b c p q r = absurd (omega arith)
assoc_fuel (suc n) a b c p q r =
    eq_of_digits _ _
      (rw
        (
          bit_xor-half (bit_xor a b) c,
          bit_xor-half a b,
          bit_xor-half a (bit_xor b c),
          bit_xor-half b c,
        )
        (assoc_fuel n (a / 2) (b / 2) (c / 2) (omega arith) (omega arith) (omega arith)))
      (omega (
        arith,
        bit_xor-low (bit_xor a b) c,
        bit_xor-low a b,
        bit_xor-low a (bit_xor b c),
        bit_xor-low b c,
      ))

pub bit_xor_assoc : (a b c : ℕ) → bit_xor (bit_xor a b) c ≡ bit_xor a (bit_xor b c)
bit_xor_assoc a b c = assoc_fuel (a + b + c) a b c (omega arith) (omega arith) (omega arith)

self_fuel : (n a : ℕ) → a ≤ n → bit_xor a a ≡ 0
self_fuel zero zero p = refl
self_fuel zero (suc a) p = absurd (omega arith)
self_fuel (suc n) a p = omega (arith, bit_xor_step a a, self_fuel n (a / 2) (omega arith))

pub bit_xor_self : (a : ℕ) → bit_xor a a ≡ 0
bit_xor_self a = self_fuel a a (omega arith)

pub bit_xor_cancel : (a b : ℕ) → bit_xor (bit_xor a b) b ≡ a
bit_xor_cancel a b = rw (bit_xor_assoc, bit_xor_self b) (bit_xor-zero a)

-- (a ^ b) ^ (c ^ d) is (a ^ c) ^ (b ^ d).
pub bit_xor_exchange :
    (a b c d : ℕ) → bit_xor (bit_xor a b) (bit_xor c d) ≡ bit_xor (bit_xor a c) (bit_xor b d)
bit_xor_exchange a b c d =
    bit_xor_assoc a b (bit_xor c d)
    ∙ ap (bit_xor a)
        (sym (bit_xor_assoc b c d) ∙ ap (λ t. bit_xor t d) (bit_xor_comm b c) ∙ bit_xor_assoc c b d)
    ∙ sym (bit_xor_assoc a c (bit_xor b d))

-- Numbers of k binary digits stay such numbers.
pub bit_xor-lt : (k a b : ℕ) → a < 2 ^ k → b < 2 ^ k → bit_xor a b < 2 ^ k
bit_xor-lt zero zero zero p q = omega arith
bit_xor-lt zero zero (suc b) p q = absurd (omega arith)
bit_xor-lt zero (suc a) b p q = absurd (omega arith)
bit_xor-lt (suc k) a b p q = omega (
  arith,
  pow-suc 2 k,
  bit_xor_step a b,
  bit_xor-lt k (a / 2) (b / 2) (omega (arith, pow-suc 2 k)) (omega (arith, pow-suc 2 k)),
)

-- A number below 2 ^ k fills the k free digits of a multiple of 2 ^ k.
pub bit_xor_fields : (k q r : ℕ) → r < 2 ^ k → bit_xor (q * 2 ^ k) r ≡ q * 2 ^ k + r
bit_xor_fields zero q zero p = omega (arith, bit_xor-zero (q * 2 ^ zero))
bit_xor_fields zero q (suc r) p = absurd (omega arith)
bit_xor_fields (suc k) q r p = ground (
  arith,
  bit_xor_step (q * 2 ^ suc k) r,
  ap (λ (t : ℕ). q * t) (pow-suc 2 k),
  pow-suc 2 k,
  bit_xor_fields k q (r / 2) (omega (arith, pow-suc 2 k)),
)

-- The mask 0xFF keeps the lowest byte.
and_step : (a b : ℕ) → bit_and a b ≡ bit_and (a / 2) (b / 2) * 2 + min (a % 2) (b % 2)
and_step zero b = omega (arith, bit_and-bitwise 0 b, bit_and-bitwise 0 (b / 2))
and_step (suc a) b = omega (
  arith,
  bit_and-bitwise (suc a) b,
  bit_and-bitwise (suc a / 2) (b / 2),
  lowest_digit (λ y. zero) min a b,
)

and-zero_fuel : (n a : ℕ) → a ≤ n → bit_and a 0 ≡ 0
and-zero_fuel zero zero p = refl
and-zero_fuel zero (suc a) p = absurd (omega arith)
and-zero_fuel (suc n) a p = omega (arith, and_step a 0, and-zero_fuel n (a / 2) (omega arith))

mask_step : (m a : ℕ) → bit_and a (m * 2 + 1) ≡ bit_and (a / 2) m * 2 + a % 2
mask_step m a = ground (arith, and_step a (m * 2 + 1), ap (bit_and (a / 2)) (half_odd m))
  where
    half_odd : (n : ℕ) → (n * 2 + 1) / 2 ≡ n
    half_odd n = omega arith

mask_nibble : (a : ℕ) → bit_and a 0x0f ≡ a % 16
mask_nibble a = omega (
  arith,
  mask_step 7 a,
  mask_step 3 (a / 2),
  mask_step 1 (a / 2 / 2),
  mask_step 0 (a / 2 / 2 / 2),
  and-zero_fuel a (a / 2 / 2 / 2 / 2) (omega arith),
)

pub bit_and_byte : (a : ℕ) → bit_and a 0xff ≡ a % 256
bit_and_byte a = omega (
  arith,
  mask_step 127 a,
  mask_step 63 (a / 2),
  mask_step 31 (a / 2 / 2),
  mask_step 15 (a / 2 / 2 / 2),
  mask_nibble (a / 2 / 2 / 2 / 2),
)

-- ===== src/Text/Decimal.antt =====
-- The digits of `%d`, and the number that they stand for.
use ibverb_prototype.Prelude.{
  ℕ, zero, suc, ◌+◌, ◌-◌, ◌*◌, ◌/◌, ◌%◌, ◌^◌, ◌<◌, ◌≤◌, ◌≡◌, refl, arith, ltb, Bool-cases, inl, inr,
  List, [], ◌∷◌, ◌++◌, length, length-append, All, All-append,
}
use native.Mathlib.Nat.{pow-suc}
use ibverb_prototype.Text.{digits, decimal}

-- The number that decimal digits stand for, read from the highest.
unfoldable pub value : ℕ → List ℕ → ℕ
value acc [] = acc
value acc (c ∷ cs) = value (acc * 10 + (c - b'0')) cs

value-append :
    (acc : ℕ) (xs : List ℕ) (c : ℕ) → value acc (xs ++ (c ∷ [])) ≡ value acc xs * 10 + (c - b'0')
unfolding value
value-append acc [] c = refl
value-append acc (x ∷ xs) c = value-append (acc * 10 + (x - b'0')) xs c

digits_small : (fuel n : ℕ) → n < 10 → digits (suc fuel) n ≡ (b'0' + n) ∷ []
unfolding digits
digits_small fuel n h = ground arith

digits_large :
    (fuel n : ℕ) → 10 ≤ n → digits (suc fuel) n ≡ digits fuel (n / 10) ++ ((b'0' + n % 10) ∷ [])
unfolding digits
digits_large fuel n h = ground arith

value-digits : (fuel n : ℕ) → n < 10 ^ suc fuel → value 0 (digits (suc fuel) n) ≡ n
value-digits zero n h = rw (digits_small zero n (omega arith)) (unfold value in omega arith)
value-digits (suc fuel) n h = elim (Bool-cases (ltb n 10)) [
  | inl small ↦ rw (digits_small (suc fuel) n (ground arith)) (unfold value in omega arith)
  | inr large ↦
      rw (digits_large (suc fuel) n (ground arith), value-append)
        (omega (arith, value-digits fuel (n / 10) (omega (arith, pow-suc 10 (suc fuel)))))
]

-- Reading the decimal text of an `int` gives the number back.
pub value-decimal : (n : ℕ) → n < 10 ^ 10 → value 0 (decimal n) ≡ n
unfolding decimal
value-decimal n h = value-digits 9 n h

length-digits_le : (fuel n : ℕ) → length (digits fuel n) ≤ fuel
unfolding digits
length-digits_le zero n = omega arith
length-digits_le (suc fuel) n = ground (
  arith,
  length-digits_le fuel (n / 10),
  length-append (digits fuel (n / 10)) ((b'0' + n % 10) ∷ []),
)

-- A larger number has no fewer digits.
length-digits_mono : (fuel n m : ℕ) → n ≤ m → length (digits fuel n) ≤ length (digits fuel m)
unfolding digits
length-digits_mono zero n m h = omega arith
length-digits_mono (suc fuel) n m h = ground (
  arith,
  length-digits_mono fuel (n / 10) (m / 10) (omega arith),
  length-append (digits fuel (n / 10)) ((b'0' + n % 10) ∷ []),
  length-append (digits fuel (m / 10)) ((b'0' + m % 10) ∷ []),
)

-- Digits are the ASCII codes of 0 to 9.
abbrev pub IsDigit : ℕ → Type 0
IsDigit c = (b'0' ≤ c) × (c ≤ b'9')

digits-IsDigit : (fuel n : ℕ) → All IsDigit (digits fuel n)
digits-IsDigit zero n = unfold digits in tt
digits-IsDigit (suc fuel) n = elim (Bool-cases (ltb n 10)) [
  | inl small ↦ rw (digits_small fuel n (ground arith)) (grind arith)
  | inr large ↦ rw (digits_large fuel n (ground arith)) (
      All-append IsDigit (digits fuel (n / 10)) ((b'0' + n % 10) ∷ [])
        (digits-IsDigit fuel (n / 10)) (omega arith))
]

pub length-decimal_le : (n : ℕ) → length (decimal n) ≤ 10
unfolding decimal
length-decimal_le n = length-digits_le 10 n

pub length-decimal_mono : (n m : ℕ) → n ≤ m → length (decimal n) ≤ length (decimal m)
unfolding decimal
length-decimal_mono n m h = length-digits_mono 10 n m h

pub decimal-IsDigit : (n : ℕ) → All IsDigit (decimal n)
unfolding decimal
decimal-IsDigit n = digits-IsDigit 10 n

-- ===== src/Text.antt =====
-- The text that the senders format: `snprintf(buf, size, "Message: %d", count)`, as bytes.
pub mod Decimal
pub mod Message
use ibverb_prototype.Prelude.{
  ℕ, zero, suc, ◌+◌, ◌-◌, ◌/◌, ◌%◌, ltb, ◌==◌, ◌&&◌, Bool, true, false, if◌then◌else◌, List, [],
  ◌∷◌, ◌++◌, length, take, memcpy,
}

-- The decimal digits of a number, highest first, as ASCII. The fuel is the number of digits at most.
unfoldable pub digits : ℕ → ℕ → List ℕ
digits zero n = []
digits (suc fuel) n =
    let rest = digits fuel (n / 10) ++ ((b'0' + n % 10) ∷ []) in
    if ltb n 10 then (b'0' + n) ∷ [] else rest

-- `%d` of a non-negative `int`, which has ten digits at most.
unfoldable pub decimal : ℕ → List ℕ
unfolding digits
decimal n = digits 10 n

-- "Message: %d"
unfoldable pub message : ℕ → List ℕ
unfolding decimal
message count = b'M' ∷ b'e' ∷ b's' ∷ b's' ∷ b'a' ∷ b'g' ∷ b'e' ∷ b':' ∷ b' ' ∷ decimal count

-- `snprintf` into a buffer of which `size` bytes may be used: the buffer afterwards holds the text,
-- cut to leave room for the terminating zero, and that zero. It returns the length of the text.
unfoldable pub snprintf : List ℕ → ℕ → List ℕ → ℕ × List ℕ
snprintf buf size text =
    let kept = take (size - 1) text ++ (0 ∷ []) in (length text, memcpy buf kept (length kept))

-- `!strcmp(a, b)`, for strings as lists of characters.
unfoldable pub same_name : List ℕ → List ℕ → Bool
same_name [] [] = true
same_name [] (y ∷ ys) = false
same_name (x ∷ xs) [] = false
same_name (x ∷ xs) (y ∷ ys) = (x == y) && same_name xs ys

-- ===== src/RawUdp/Bag.antt =====
-- `ipv4check` as a function of the bag of the words, which forgets their order.
use ibverb_prototype.Prelude.{
  ℕ, suc, ◌+◌, ◌-◌, ◌*◌, ◌^◌, ◌≤◌, ◌≡◌, refl, sym, ap, ◌∙◌, arith, some, List, [], ◌∷◌, length, All,
}
use mathlib.Core.List.{foldr, Perm}
use mathlib.Core.List.Perm
use mathlib.Core.Quot
use mathlib.Core.Quot.{Quot}
use native.Mathlib.Nat.{ℕ_set}
use ibverb_prototype.Crc.Correct.{IsByte}
use ibverb_prototype.RawUdp.{ipv4check}
use ibverb_prototype.RawUdp.Check.{total, end_around, ones_sum-end_around, ipv4check-ones_sum}

-- The 16-bit words of the bytes, lowest byte first.
unfoldable pub words : List ℕ → List ℕ
words [] = []
words (low ∷ []) = []
words (low ∷ high ∷ bytes) = (low + high * 2 ^ 8) ∷ words bytes

-- Words, as often as each occurs: lists up to their order.
abbrev pub Bag : Type 0
Bag = Quot (Perm {A = ℕ})

abbrev pub bag : List ℕ → Bag
bag ws = Quot.mk ws

unfoldable pub sum : List ℕ → ℕ
sum ws = foldr ◌+◌ 0 ws

pub sum-Perm : (xs ys : List ℕ) → Perm xs ys → sum xs ≡ sum ys
unfolding sum
sum-Perm xs ys p = Perm.foldr-eq ℕ_set ◌+◌ (λ a b c. omega arith) p 0

sum-words : (bytes : List ℕ) → sum (words bytes) ≡ total bytes
unfolding sum words total
sum-words [] = refl
sum-words (low ∷ []) = refl
sum-words (low ∷ high ∷ bytes) = ap (λ s. low + high * 2 ^ 8 + s) (sum-words bytes)

-- The complement of a bag's sum modulo 2 ^ 16 - 1, in the range from 1 on unless every word is 0.
unfoldable pub checksum : Bag → ℕ
checksum =
    Quot.lift ℕ_set (λ ws. 2 ^ 16 - 1 - end_around (sum ws))
      (λ xs ys p. ap (λ s. 2 ^ 16 - 1 - end_around s) (sum-Perm xs ys p))

-- For an even number of bytes, at most 65536 and at least two: `ipv4check` returns
-- the checksum of the bag of their 16-bit words, to which the order of the words does not matter.
pub ipv4check-bag :
    (bytes : List ℕ) (n : ℕ)
    → length bytes ≡ 2 * suc n
    → suc n ≤ 2 ^ 15
    → All IsByte bytes
    → ipv4check bytes (2 * suc n) ≡ some (checksum (bag (words bytes)))
unfolding checksum
ipv4check-bag bytes n l fits h =
    ipv4check-ones_sum bytes n l fits h
    ∙ ap (λ o. some (2 ^ 16 - 1 - o))
        (ones_sum-end_around bytes h ∙ ap end_around (sym (sum-words bytes)))

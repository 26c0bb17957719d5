-- ===== src/Prelude/Words.antt =====
-- Machine words of a little-endian host: their bytes in memory, network byte order, and memcpy.
use Prim.Native.Nat.{ℕ, zero, suc, ◌+◌, ◌*◌, ◌/◌, ◌%◌, ◌^◌, ◌<◌}
use mathlib.Core.Path.{◌≡◌, ap, ap₂, sym, ◌∙◌}
use mathlib.Core.List.{List, [], ◌∷◌, ◌++◌, append-nil}
use native.Mathlib.Omega.{arith}
use ibverb_prototype.Prelude.Lists.{take, drop, length, All, take-append_length, take-all, drop-all}

-- An assignment to a k-bit field or variable keeps the low k bits.
abbrev pub bits : ℕ → ℕ → ℕ
bits k v = v % 2 ^ k

-- The k bytes of a word, lowest first, as memory holds them.
abbrev pub le_bytes : ℕ → ℕ → List ℕ
le_bytes zero n = []
le_bytes (suc k) n = n % 256 ∷ le_bytes k (n / 256)

-- The bytes of 16, 24 and 32 bits, highest first, as a network protocol writes them.
abbrev pub be16 : ℕ → List ℕ
be16 n = n / 2 ^ 8 % 256 ∷ n % 256 ∷ []

abbrev pub be24 : ℕ → List ℕ
be24 n = n / 2 ^ 16 % 256 ∷ n / 2 ^ 8 % 256 ∷ n % 256 ∷ []

abbrev pub be32 : ℕ → List ℕ
be32 n = n / 2 ^ 24 % 256 ∷ n / 2 ^ 16 % 256 ∷ n / 2 ^ 8 % 256 ∷ n % 256 ∷ []

-- `htons` and `ntohs` swap the two bytes of their 16-bit argument.
unfoldable pub htons : ℕ → ℕ
htons n = n % 256 * 2 ^ 8 + n / 2 ^ 8 % 256

unfoldable pub ntohs : ℕ → ℕ
unfolding htons
ntohs n = htons n

-- `htonl` and `ntohl` reverse the four bytes of their 32-bit argument.
unfoldable pub htonl : ℕ → ℕ
htonl n = n % 256 * 2 ^ 24 + n / 2 ^ 8 % 256 * 2 ^ 16 + n / 2 ^ 16 % 256 * 2 ^ 8 + n / 2 ^ 24 % 256

unfoldable pub ntohl : ℕ → ℕ
unfolding htonl
ntohl n = htonl n

pub ntohs-htons : (n : ℕ) → n < 2 ^ 16 → ntohs (htons n) ≡ n
unfolding ntohs
ntohs-htons n h = omega arith

pub ntohl-htonl : (n : ℕ) → n < 2 ^ 32 → ntohl (htonl n) ≡ n
unfolding ntohl
ntohl-htonl n h = omega arith

-- Memory holds a converted word highest byte first.
pub le_bytes-htons : (n : ℕ) → n < 2 ^ 16 → le_bytes 2 (htons n) ≡ be16 n
unfolding htons
le_bytes-htons n h = ground arith

pub le_bytes-htonl : (n : ℕ) → n < 2 ^ 32 → le_bytes 4 (htonl n) ≡ be32 n
unfolding htonl
le_bytes-htonl n h = ground arith

pub le_bytes-All : (k n : ℕ) → All (λ d. d < 256) (le_bytes k n)
le_bytes-All zero n = tt
le_bytes-All (suc k) n = (omega arith, le_bytes-All k (n / 256))

-- `memcpy(dst, src, n)`: the bytes of dst afterwards.
unfoldable pub memcpy {ℓ} : {A : Type ℓ} → List A → List A → ℕ → List A
memcpy dst src n = take n src ++ drop n dst

pub htons-lt : (n : ℕ) → htons n < 2 ^ 16
unfolding htons
htons-lt n = omega arith

pub ntohs-lt : (n : ℕ) → ntohs n < 2 ^ 16
unfolding ntohs
ntohs-lt n = omega arith

pub htonl-lt : (n : ℕ) → htonl n < 2 ^ 32
unfolding htonl
htonl-lt n = omega arith

-- A copy that fills its target is the source.
pub memcpy_whole {ℓ} :
    {A : Type ℓ} (dst src : List A) (n : ℕ)
    → length src ≡ n
    → length dst ≡ n
    → memcpy dst src n ≡ src
unfolding memcpy
memcpy_whole dst src n s d =
    ap₂ ◌++◌ (ap (λ m. take m src) (sym s) ∙ take-all src)
      (ap (λ m. drop m dst) (sym d) ∙ drop-all dst)
    ∙ append-nil src

-- A copy that fills its target from a longer source.
pub memcpy_prefix {ℓ} :
    {A : Type ℓ} (dst src more : List A) (n : ℕ)
    → length src ≡ n
    → length dst ≡ n
    → memcpy dst (src ++ more) n ≡ src
unfolding memcpy
memcpy_prefix dst src more n s d =
    ap₂ ◌++◌ (ap (λ m. take m (src ++ more)) (sym s) ∙ take-append_length src more)
      (ap (λ m. drop m dst) (sym d) ∙ drop-all dst)
    ∙ append-nil src

-- ===== src/Kernel/Lines.antt =====
-- The lines of the kernel's loop, and the bytes that a receiver puts together from them.
use ibverb_prototype.Prelude.{
  ℕ, zero, suc, ◌+◌, ◌-◌, ◌*◌, ◌/◌, ◌%◌, ◌^◌, ◌≤◌, ◌<◌, ◌≡◌, ◌≢◌, refl, sym, ap, ◌∙◌, arith, ltb,
  leb, ◌==◌, ◌&&◌, bit_or, Bool, true, false, Bool-cases, inl, inr, if◌then◌else◌, Option, some,
  List, [], ◌∷◌, ◌++◌, length, take, drop, bits, all_below, all_below_sound,
}
use native.Mathlib.Decide.{dec_lt}
use ibverb_prototype.Kernel.{ChannelLine, flag_first, flag_last, line_flags, write_lines}

-- The bytes of a packet from its lines: whole lines, and of the line that is marked as the last one what
-- its upper five bits do not count as padding.
unfoldable pub reassemble : List ChannelLine → List ℕ
reassemble [] = []
reassemble (l ∷ ls) =
    let rest = l.payload ++ reassemble ls in
    if l.flags / 2 % 2 == 1 then take (32 - l.flags / 8) l.payload else rest

take-nil : (n : ℕ) → take {A = ℕ} n [] ≡ []
take-nil zero = refl
take-nil (suc n) = refl

drop-nil : (n : ℕ) → drop {A = ℕ} n [] ≡ []
drop-nil zero = refl
drop-nil (suc n) = refl

take-add : (a b : ℕ) (xs : List ℕ) → take a xs ++ take b (drop a xs) ≡ take (a + b) xs
take-add zero b xs = ap (λ n. take n xs) (let e : b ≡ 0 + b = omega arith in e)
take-add (suc a) b [] = take-nil b ∙ sym (take-nil (suc a + b))
take-add (suc a) b (x ∷ xs) =
    ap (λ l. x ∷ l) (take-add a b xs)
    ∙ ap (λ n. take n (x ∷ xs)) (let e : suc (a + b) ≡ suc a + b = omega arith in e)

drop-drop : (a b : ℕ) (xs : List ℕ) → drop a (drop b xs) ≡ drop (b + a) xs
drop-drop a zero xs = ap (λ n. drop n xs) (let e : a ≡ 0 + a = omega arith in e)
drop-drop a (suc b) [] = drop-nil a ∙ sym (drop-nil (suc b + a))
drop-drop a (suc b) (x ∷ xs) =
    drop-drop a b xs
    ∙ ap (λ n. drop n (x ∷ xs)) (let e : suc (b + a) ≡ suc b + a = omega arith in e)

pub take-take : (a b : ℕ) (xs : List ℕ) → a ≤ b → take a (take b xs) ≡ take a xs
take-take zero b xs h = refl
take-take (suc a) zero xs h = absurd (omega arith)
take-take (suc a) (suc b) [] h = refl
take-take (suc a) (suc b) (x ∷ xs) h = ap (λ l. x ∷ l) (take-take a b xs (omega arith))

-- What the flags say, for every padding.
flags_checked : ℕ → Bool
flags_checked pad =
    let plain = bits 8 (bit_or 0 (bit_or flag_last (pad * 2 ^ 3))) in
    let first = bits 8 (bit_or (bit_or 0 flag_first) (bit_or flag_last (pad * 2 ^ 3))) in
    (plain / 2 % 2 == 1) && ((plain / 8 == pad) && ((first / 2 % 2 == 1) && (first / 8 == pad)))

all_flags_checked : (pad : ℕ) → pad < 32 → flags_checked pad ≡ true
unfolding flags_checked all_below
all_flags_checked pad h = all_below_sound 32 flags_checked pad refl h

abbrev IsMarked : ℕ → ℕ → Type 0
IsMarked flags pad = (flags / 2 % 2 ≡ 1) × (flags / 8 ≡ pad)

marked :
    (pad : ℕ)
    → pad < 32
    → IsMarked (bits 8 (bit_or 0 (bit_or flag_last (pad * 2 ^ 3)))) pad
      × IsMarked (bits 8 (bit_or (bit_or 0 flag_first) (bit_or flag_last (pad * 2 ^ 3)))) pad
unfolding flags_checked
marked pad h = let all = all_flags_checked pad h in ground arith

line_flags-last :
    (size i : ℕ)
    → i ≡ (size - 1) / 32
    → IsMarked (line_flags size i) ((2 ^ 32 - size) % 2 ^ 32 % 32)
unfolding line_flags
line_flags-last size i e =
    let m = marked ((2 ^ 32 - size) % 2 ^ 32 % 32) (omega arith) in
    let here : (i == (size - 1) / 32) ≡ true = ground arith in
    elim (Bool-cases (i == 0)) [
      | inl first ↦ rw (here, first) m.1
      | inr later ↦ rw (here, later) m.0
    ]

line_flags-inner : (size i : ℕ) → i ≢ (size - 1) / 32 → line_flags size i / 2 % 2 ≡ 0
unfolding line_flags
line_flags-inner size i ne = ground arith

-- One line in front of those after it.
reassemble-line :
    (size i : ℕ) (bytes : List ℕ) (ls : List ChannelLine)
    → size < 2 ^ 32
    → 32 * i < size
    → (32 * (i + 1) < size → reassemble ls ≡ take (size - 32 * (i + 1)) (drop (32 * (i + 1)) bytes))
    → reassemble
        (record { payload = take 32 (drop (32 * i) bytes); flags = line_flags size i } ∷ ls)
      ≡ take (size - 32 * i) (drop (32 * i) bytes)
unfolding reassemble
reassemble-line size i bytes ls word more later = elim (dec_lt (32 * (i + 1)) size) [
  | yes inner ↦
      let plain = line_flags-inner size i (omega arith) in
      let go : (line_flags size i / 2 % 2 == 1) ≡ false = ground arith in
      rw go (
        ap (λ l. take 32 (drop (32 * i) bytes) ++ l)
          (later inner
            ∙ ap (take (size - 32 * (i + 1)))
                (ap (λ n. drop n bytes) (omega arith) ∙ sym (drop-drop 32 (32 * i) bytes)))
        ∙ take-add 32 (size - 32 * (i + 1)) (drop (32 * i) bytes)
        ∙ ap (λ n. take n (drop (32 * i) bytes)) (omega arith))
  | no outer ↦
      let m = line_flags-last size i (omega arith) in
      let stop : (line_flags size i / 2 % 2 == 1) ≡ true = ground (arith, m.0) in
      let left : 32 - line_flags size i / 8 ≡ size - 32 * i = omega arith in
      rw stop (
        ap (λ n. take n (take 32 (drop (32 * i) bytes))) left
        ∙ take-take (size - 32 * i) 32 (drop (32 * i) bytes) (omega arith))
]

-- From line i on: enough fuel for the lines that are left writes them, and their bytes are those of
-- the packet from there on.
pub record IsWritten (size i : ℕ) (bytes : List ℕ) (result : Option (List ChannelLine))
    : Type 0 where
  pub lines : List ChannelLine
  pub run : result ≡ some lines
  pub content : 32 * i < size → reassemble lines ≡ take (size - 32 * i) (drop (32 * i) bytes)

pub write_lines-IsWritten :
    (fuel size i : ℕ) (bytes : List ℕ)
    → size < 2 ^ 32
    → 32 * i ≤ size + 31
    → size + 31 < 32 * i + 32 * fuel
    → (size + 31) / 32 * 32 ≤ length bytes
    → IsWritten size i bytes (write_lines fuel size i bytes)
unfolding write_lines
write_lines-IsWritten zero size i bytes word going enough room = absurd (omega arith)
write_lines-IsWritten (suc fuel) size i bytes word going enough room = elim (dec_lt (32 * i) size) [
  | no done ↦
      let stop : ltb (32 * i) size ≡ false = ground arith in
      rw stop (record { lines = []; run = refl; content = λ h. absurd (done h) })
  | yes more ↦
      let go : ltb (32 * i) size ≡ true = ground arith in
      let fits : leb (32 * i + 32) (length bytes) ≡ true = ground arith in
      let later =
        write_lines-IsWritten fuel size (i + 1) bytes word (omega arith) (omega arith) room in
      rw (go, fits, later.run)
        (record {
          lines =
              record { payload = take 32 (drop (32 * i) bytes); flags = line_flags size i }
              ∷ later.lines;
          run = refl;
          content = λ h. reassemble-line size i bytes later.lines word h later.content;
        })
]

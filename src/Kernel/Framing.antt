-- ===== src/Kernel/Framing.antt =====
-- How the lines of the kernel's loop are framed for the receiver of the channel, and how many there are.
use ibverb_prototype.Prelude.{
  ℕ, zero, suc, ◌+◌, ◌-◌, ◌*◌, ◌/◌, ◌%◌, ◌^◌, ◌≤◌, ◌<◌, ◌≡◌, refl, ◌∙◌, arith, ltb, leb, ◌==◌, ◌&&◌,
  bit_or, Bool, true, false, Bool-cases, inl, inr, if◌then◌else◌, Option, some, List, [], ◌∷◌,
  length, length-take, length-drop, take, drop, bits, all_below, all_below_sound,
}
use native.Mathlib.Decide.{dec_lt}
use ibverb_prototype.Kernel.{ChannelLine, flag_first, flag_last, line_flags, write_lines}

-- The flags of line i of a packet of `size` bytes: bit 0 marks the first line, bit 1 the last, and the five
-- bits above bit 2 count the bytes behind the packet's end.
pub record IsFlagged (size i flags : ℕ) : Type 0 where
  pub first : flags % 2 ≡ (if i == 0 then 1 else 0)
  pub last : flags / 2 % 2 ≡ (if leb size (32 * (i + 1)) then 1 else 0)
  pub padding : flags / 8 ≡ 32 * (i + 1) - size

-- Lines of 32 bytes, from line i of the packet to its end.
pub IsFramed : ℕ → ℕ → List ChannelLine → Type 0
IsFramed size i [] = size ≤ 32 * i
IsFramed size i (l ∷ ls) =
    (32 * i < size) × (length l.payload ≡ 32) × IsFlagged size i l.flags × IsFramed size (i + 1) ls

-- What the flags of the last line say, for every padding.
last_checked : ℕ → Bool
last_checked pad =
    let plain = bits 8 (bit_or 0 (bit_or flag_last (pad * 2 ^ 3))) in
    let first = bits 8 (bit_or (bit_or 0 flag_first) (bit_or flag_last (pad * 2 ^ 3))) in
    (plain % 2 == 0)
    && ((plain / 2 % 2 == 1)
        && ((plain / 8 == pad)
            && ((first % 2 == 1) && ((first / 2 % 2 == 1) && (first / 8 == pad)))))

all_last_checked : (pad : ℕ) → pad < 32 → last_checked pad ≡ true
unfolding last_checked all_below
all_last_checked pad h = all_below_sound 32 last_checked pad refl h

last_flags :
    (pad : ℕ)
    → pad < 32
    → (let plain = bits 8 (bit_or 0 (bit_or flag_last (pad * 2 ^ 3))) in
        (plain % 2 ≡ 0) × (plain / 2 % 2 ≡ 1) × (plain / 8 ≡ pad))
      × (let first = bits 8 (bit_or (bit_or 0 flag_first) (bit_or flag_last (pad * 2 ^ 3))) in
          (first % 2 ≡ 1) × (first / 2 % 2 ≡ 1) × (first / 8 ≡ pad))
unfolding last_checked
last_flags pad h = let all = all_last_checked pad h in ground arith

line_flags-IsFlagged :
    (size i : ℕ) → size < 2 ^ 32 → 32 * i < size → IsFlagged size i (line_flags size i)
unfolding line_flags
line_flags-IsFlagged size i word more = elim (dec_lt (32 * (i + 1)) size) [
  | yes inner ↦
      let plain : (i == (size - 1) / 32) ≡ false = ground arith in
      let open_line : leb size (32 * (i + 1)) ≡ false = ground arith in
      elim (Bool-cases (i == 0)) [
        | inl start ↦
            rw (plain, start)
              (record {
                first = rw (start) refl;
                last = rw (open_line) refl;
                padding = omega arith;
              })
        | inr later ↦
            rw (plain, later)
              (record {
                first = rw (later) refl;
                last = rw (open_line) refl;
                padding = omega arith;
              })
      ]
  | no outer ↦
      let here : (i == (size - 1) / 32) ≡ true = ground arith in
      let closed_line : leb size (32 * (i + 1)) ≡ true = ground arith in
      let pad : ℕ = (2 ^ 32 - size) % 2 ^ 32 % 32 in
      let counted : pad ≡ 32 * (i + 1) - size = omega arith in
      let m = last_flags pad (omega arith) in
      elim (Bool-cases (i == 0)) [
        | inl start ↦
            rw (here, start)
              (record {
                first = rw (start) m.1.0;
                last = rw (closed_line) m.1.1;
                padding = m.1.2 ∙ counted;
              })
        | inr later ↦
            rw (here, later)
              (record {
                first = rw (later) m.0.0;
                last = rw (closed_line) m.0.1;
                padding = m.0.2 ∙ counted;
              })
      ]
]

-- The loop's result from line i on.
pub record IsEnded (size i : ℕ) (result : Option (List ChannelLine)) : Type 0 where
  pub lines : List ChannelLine
  pub run : result ≡ some lines
  pub framed : IsFramed size i lines
  pub count : length lines + i ≡ (size + 31) / 32

pub write_lines-IsEnded :
    (fuel size i : ℕ) (bytes : List ℕ)
    → size < 2 ^ 32
    → 32 * i ≤ size + 31
    → size + 31 < 32 * i + 32 * fuel
    → (size + 31) / 32 * 32 ≤ length bytes
    → IsEnded size i (write_lines fuel size i bytes)
unfolding write_lines IsFramed
write_lines-IsEnded zero size i bytes word going enough room = absurd (omega arith)
write_lines-IsEnded (suc fuel) size i bytes word going enough room = elim (dec_lt (32 * i) size) [
  | no over ↦
      let stop : ltb (32 * i) size ≡ false = ground arith in
      rw stop (record { lines = []; run = refl; framed = omega arith; count = omega arith })
  | yes more ↦
      let go : ltb (32 * i) size ≡ true = ground arith in
      let fits : leb (32 * i + 32) (length bytes) ≡ true = ground arith in
      let later =
        write_lines-IsEnded fuel size (i + 1) bytes word (omega arith) (omega arith) room in
      let whole : length (take 32 (drop (32 * i) bytes)) ≡ 32 =
        omega (arith, length-take 32 (drop (32 * i) bytes), length-drop (32 * i) bytes) in
      rw (go, fits, later.run)
        (record {
          lines =
              record { payload = take 32 (drop (32 * i) bytes); flags = line_flags size i }
              ∷ later.lines;
          run = refl;
          framed = (more, whole, line_flags-IsFlagged size i word more, later.framed);
          count = omega (arith, later.count);
        })
]

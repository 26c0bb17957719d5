-- ===== src/RdmaClient/Fill.antt =====
-- The contents of the data buffer: the next n messages, each in the slot of its request.
use ibverb_prototype.Prelude.{
  ℕ, zero, suc, ◌+◌, ◌*◌, ◌%◌, ◌^◌, leb, ltb, ◌&&◌, if◌then◌else◌, ◌<◌, ◌≡◌, ◌≢◌, refl, sym, ap,
  ◌∙◌, arith, some, List, get_elem?,
}
use native.Mathlib.Nat.{mod-lt, mod-eq_of_lt, mod-add-mod, add-mod_right, zero-add}
use native.Mathlib.Decide.{dec_lt}
use ibverb_prototype.Packet.{msg_size}
use ibverb_prototype.Rdma.Buffers.{SendBuffer}
use ibverb_prototype.Rdma.Post.Ring.{steps_differ}
use ibverb_prototype.RdmaClient.{Memory, memset, Filling, fill_slot, fill_all, data_memory}

-- Slot i of the buffer is message v: every byte is the low byte of v.
abbrev pub IsMessage : Memory → ℕ → ℕ → Type 0
IsMessage m i v = (x : ℕ) → x < msg_size → m.byte (i * msg_size + x) ≡ v % 2 ^ 8

abbrev pub HasSlots : ℕ → List SendBuffer → Type 0
HasSlots n buffers =
    (i : ℕ)
    → i < n
    → (b : SendBuffer) × (get_elem? buffers i ≡ some b) × (b.data_buffer ≡ i * msg_size)

-- The buffer with slot i filled with v.
abbrev filled_slot : Memory → ℕ → ℕ → Memory
filled_slot m i v = record m {
  byte =
      λ x. if leb (i * msg_size) x && ltb x (i * msg_size + msg_size) then v % 2 ^ 8 else m.byte x;
}

fill_slot-filled_slot :
    (n : ℕ) (buffers : List SendBuffer) (i : ℕ) (f : Filling)
    → HasSlots n buffers
    → f.memory.size ≡ n * msg_size
    → i < n
    → fill_slot buffers i f
      ≡ some (record { memory = filled_slot f.memory i f.count; count = f.count + 1 })
unfolding fill_slot memset
fill_slot-filled_slot n buffers i f slots size inside =
    let (b, found, placed) = slots i inside in rw (found, placed) (ground arith)

filled_slot-same : (m : Memory) (i v w : ℕ) → v ≡ w → IsMessage (filled_slot m i v) i w
filled_slot-same m i v w e x h = ground (arith, ap (λ k. k % 2 ^ 8) e)

filled_slot-other :
    (m : Memory) (i j v w : ℕ) → i ≢ j → IsMessage m j w → IsMessage (filled_slot m i v) j w
filled_slot-other m i j v w ne old x h = ground (arith, old x h)

-- With `total` messages completed: the buffer holds the n messages after them, and the next to be
-- written is the one after these.
pub record IsFilled (n total : ℕ) (f : Filling) : Type 0 where
  pub size : f.memory.size ≡ n * msg_size
  pub count : f.count ≡ total + n
  pub slots : (j : ℕ) → j < n → IsMessage f.memory ((total + j) % n) (total + j)

module _ (n : ℕ) (pos : 0 < n) (buffers : List SendBuffer) (has_slots : HasSlots n buffers) where
  -- Filling the slot of the oldest message with the next one keeps the others.
  next_slots :
      (total : ℕ) (f : Filling) (j : ℕ)
      → IsFilled n total f
      → j < n
      → IsMessage (filled_slot f.memory (total % n) f.count) ((total + 1 + j) % n) (total + 1 + j)
  next_slots total f j v h = elim (dec_lt (suc j) n) [
    | yes inner ↦
        let moved : total % n ≢ (total + suc j) % n = λ e.
          steps_differ n (total % n) (suc j) (mod-lt total pos) (omega arith) inner
            (mod-add-mod total n (suc j) ∙ sym e) in
        ap_message (omega arith) (
          filled_slot-other f.memory (total % n) ((total + suc j) % n) f.count (total + suc j) moved
            (v.slots (suc j) inner))
    | no outer ↦
        let last : total + n ≡ total + 1 + j = omega arith in
        ap_message last (
          rw (add-mod_right total n)
            (filled_slot-same f.memory (total % n) f.count (total + n) v.count))
  ]
    where
      m : Memory
      m = filled_slot f.memory (total % n) f.count

      ap_message : {v w : ℕ} → v ≡ w → IsMessage m (v % n) v → IsMessage m (w % n) w
      ap_message e p = rw (← e) p

  pub fill_slot-IsFilled :
      (total i : ℕ) (f : Filling)
      → IsFilled n total f
      → i ≡ total % n
      → (f' : Filling) × (fill_slot buffers i f ≡ some f') × IsFilled n (total + 1) f'
  fill_slot-IsFilled total i f v e = (
    record { memory = filled_slot f.memory (total % n) f.count; count = f.count + 1 },
    ap (λ k. fill_slot buffers k f) e
        ∙ fill_slot-filled_slot n buffers (total % n) f has_slots v.size (mod-lt total pos),
    record {
      size = v.size;
      count = omega (arith, v.count);
      slots = λ j h. next_slots total f j v h;
    },
  )

  -- The first filling, from index i on.
  fill_all-IsFilled_from :
      (left i : ℕ) (f : Filling)
      → i + left ≡ n
      → f.memory.size ≡ n * msg_size
      → f.count ≡ i
      → ((j : ℕ) → j < i → IsMessage f.memory j j)
      → (f' : Filling) × (fill_all buffers left i f ≡ some f') × IsFilled n 0 f'
  unfolding fill_all
  fill_all-IsFilled_from zero i f e size count slots = (
    f,
    refl,
    record {
      size = size;
      count = omega arith;
      slots = λ j h. rw (zero-add j, mod-eq_of_lt h) (slots j (omega arith));
    },
  )
  fill_all-IsFilled_from (suc left) i f e size count slots =
      let (f', run, filled) =
        fill_all-IsFilled_from left (i + 1)
          (record { memory = filled_slot f.memory i f.count; count = f.count + 1 }) (omega arith)
          size (omega arith)
          (λ j h. elim (dec_lt j i) [
            | yes below ↦ filled_slot-other f.memory i j f.count j (omega arith) (slots j below)
            | no above ↦
                let same : i ≡ j = omega arith in
                rw (← same) (filled_slot-same f.memory i f.count i count)
          ]) in
      (f', rw (fill_slot-filled_slot n buffers i f has_slots size (omega arith)) run, filled)

  pub fill_all-IsFilled :
      (f' : Filling) × (fill_all buffers n 0 (record { memory = data_memory n; count = 0 })
        ≡ some f')
      × IsFilled n 0 f'
  unfolding data_memory
  fill_all-IsFilled =
      fill_all-IsFilled_from n 0 (record { memory = data_memory n; count = 0 }) (omega arith) refl
        refl (λ j h. absurd (omega arith))

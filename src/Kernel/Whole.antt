-- ===== src/Kernel/Whole.antt =====
-- The packet that the kernel writes.
use ibverb_prototype.Prelude.{
  ℕ, zero, suc, ◌+◌, ◌-◌, ◌*◌, ◌/◌, ◌≤◌, ◌≡◌, refl, sym, ap, ap₂, ◌∙◌, arith, leb, true, some, List,
  [], ◌∷◌, ◌++◌, append_assoc, length, length-append, length-take, length-drop, take, drop,
  drop-append_length, memcpy, le_bytes, All,
}
use ibverb_prototype.Crc.{crc32}
use ibverb_prototype.Crc.Reference.{bitwise_crc}
use ibverb_prototype.Crc.Correct.{IsByte, crc32-fits}
use ibverb_prototype.Packet.{msg_size}
use ibverb_prototype.Kernel.{ChannelLine, data_size, store, write_ibverb_packet}
use ibverb_prototype.Kernel.Framing.{IsFramed, write_lines-IsEnded}
use ibverb_prototype.Kernel.Lines.{reassemble, write_lines-IsWritten}

All-drop : (n : ℕ) (xs : List ℕ) → All IsByte xs → All IsByte (drop n xs)
All-drop zero xs h = h
All-drop (suc n) [] h = tt
All-drop (suc n) (x ∷ xs) h = All-drop n xs h.1

take-append : (xs ys : List ℕ) (m : ℕ) → take (length xs + m) (xs ++ ys) ≡ xs ++ take m ys
take-append [] ys m = ap (λ n. take n ys) (let e : 0 + m ≡ m = omega arith in e)
take-append (x ∷ xs) ys m =
    ap (λ n. take n (x ∷ (xs ++ ys)))
      (let e : suc (length xs) + m ≡ suc (length xs + m) = omega arith in e)
    ∙ ap (λ l. x ∷ l) (take-append xs ys m)

module _ (header : List ℕ) (header_crc header_size : ℕ) (bytes : List ℕ)
    (given : header_size ≤ length header) (room : header_size ≤ 80)
    (size : length bytes ≡ data_size) (are_bytes : All IsByte bytes) where
  head : List ℕ
  head = take header_size header

  rest : List ℕ
  rest = drop header_size bytes

  -- The payload is what the array holds behind the header.
  unfoldable pub body : List ℕ
  unfolding rest
  body = take msg_size rest

  pub body-drop : body ≡ take msg_size (drop header_size bytes)
  unfolding body rest
  body-drop = refl

  length-head : length head ≡ header_size
  unfolding head
  length-head = omega (arith, length-take header_size header)

  length-rest : length rest + header_size ≡ 9040
  unfolding rest
  length-rest = omega (arith, length-drop header_size bytes)

  filled : List ℕ
  filled = memcpy bytes header header_size

  filled-parts : filled ≡ head ++ rest
  unfolding filled memcpy head rest
  filled-parts = refl

  rest-bytes : drop header_size filled ≡ rest
  rest-bytes =
      ap (drop header_size) filled-parts
      ∙ ap (λ n. drop n (head ++ rest)) (sym length-head)
      ∙ drop-append_length head rest

  crc : ℕ
  crc = bitwise_crc header_crc body

  foo : crc32 header_crc (drop header_size filled) msg_size ≡ some crc
  unfolding crc body
  foo =
      ap (λ l. crc32 header_crc l msg_size) rest-bytes
      ∙ crc32-fits header_crc rest msg_size (unfold rest in All-drop header_size bytes are_bytes)
          (omega arith) (omega (arith, length-rest))

  front : List ℕ
  front = take (header_size + msg_size) filled

  front-parts : front ≡ head ++ body
  unfolding front body
  front-parts =
      ap₂ take (ap (λ n. n + msg_size) (sym length-head)) filled-parts
      ∙ take-append head rest msg_size

  length-body : length body ≡ 8940
  unfolding body
  length-body = omega (arith, length-take msg_size rest, length-rest)

  length-front : length front ≡ header_size + msg_size
  length-front =
      ap length front-parts ∙ omega (arith, length-append head body, length-head, length-body)

  length-filled : length filled ≡ 9040
  length-filled =
      ap length filled-parts ∙ omega (arith, length-append head rest, length-head, length-rest)

  back : List ℕ
  back = drop (header_size + msg_size + 4) filled

  packet : List ℕ
  packet = front ++ (le_bytes 4 crc ++ back)

  stored : store filled (header_size + msg_size) crc ≡ some packet
  unfolding store packet front back
  stored =
      let fits : leb (header_size + msg_size + 4) (length filled) ≡ true =
        ground (arith, length-filled) in
      rw fits refl

  length-packet : length packet ≡ 9040
  unfolding packet back
  length-packet = omega (
    arith,
    length-append front (le_bytes 4 crc ++ drop (header_size + msg_size + 4) filled),
    length-front,
    length-drop (header_size + msg_size + 4) filled,
    length-filled,
  )

  whole : take (header_size + msg_size + 4) packet ≡ head ++ (body ++ le_bytes 4 crc)
  unfolding packet
  whole =
      ap (λ n. take n (front ++ (le_bytes 4 crc ++ back))) (ap (λ n. n + 4) (sym length-front))
      ∙ take-append front (le_bytes 4 crc ++ back) 4
      ∙ ap (λ l. l ++ le_bytes 4 crc) front-parts
      ∙ append_assoc head body (le_bytes 4 crc)

  -- For a header of at most 80 bytes that is there, and whatever bytes the array holds before: the kernel
  -- reads and writes nothing outside the array and the header, its loop ends, and the bytes of the lines
  -- that it writes, without the padding that the last line counts, are the header, the 8940 bytes
  -- that the array holds behind it, and lowest byte first the CRC-32 of these bytes that
  -- continues the header's.
  pub write_ibverb_packet-reassemble :
      (lines : List ChannelLine) × (write_ibverb_packet header header_crc header_size bytes
        ≡ some lines)
      × (reassemble lines
          ≡ take header_size header ++ (body ++ le_bytes 4 (bitwise_crc header_crc body)))
  unfolding write_ibverb_packet filled head crc
  write_ibverb_packet-reassemble =
      let n : ℕ = header_size + msg_size + 4 in
      let w =
        write_lines-IsWritten (suc n) n 0 packet (omega arith) (omega arith) (omega arith)
          (omega (arith, length-packet)) in
      let fits : leb header_size (length header) ≡ true = ground arith in
      (
        w.lines,
        rw (fits, foo, stored) w.run,
        w.content (omega arith)
            ∙ ap (λ m. take m packet) (let e : n - 32 * 0 ≡ n = omega arith in e)
            ∙ whole,
      )

  -- For a header of at most 80 bytes that is there: the kernel's loop ends after a round for each 32 bytes of the
  -- packet, the last ones being fewer or not, so that there are as many lines. Each has 32 bytes; the
  -- first and no other is marked as the first, the last and no other as the last, and the upper five
  -- bits of each flag count the bytes that the line has behind the packet's end.
  pub write_ibverb_packet-IsFramed :
      (lines : List ChannelLine) × (write_ibverb_packet header header_crc header_size bytes
        ≡ some lines)
      × IsFramed (header_size + msg_size + 4) 0 lines
      × (length lines ≡ (header_size + msg_size + 35) / 32)
  unfolding write_ibverb_packet filled head crc
  write_ibverb_packet-IsFramed =
      let n : ℕ = header_size + msg_size + 4 in
      let w =
        write_lines-IsEnded (suc n) n 0 packet (omega arith) (omega arith) (omega arith)
          (omega (arith, length-packet)) in
      let fits : leb header_size (length header) ≡ true = ground arith in
      (w.lines, rw (fits, foo, stored) w.run, w.framed, omega (arith, w.count))

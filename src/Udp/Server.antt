-- ===== src/Udp/Server.antt =====
-- What the server prints of each datagram.
use ibverb_prototype.Prelude.{
  ℕ, ◌<◌, ◌≡◌, refl, sym, ap, ◌∙◌, arith, leb, ◌==◌, false, if◌then◌else◌, none, some, List, [],
  ◌∷◌, ◌++◌, append_assoc, append-nil, length, length-append, length-replicate, take, drop,
  take_enough, take-all, set, memcpy, length-set, length-drop,
}
use ibverb_prototype.Udp.{
  inet, Received, packet_from, Printed, Served, served, c_string, Receiver, print_line, show_sender,
  receive, server_rounds, server_loop, buffer_size, udp_buffer,
}

-- A datagram from an IPv4 sender, shorter than the buffer.
pub record Datagram : Type 0 where
  pub addr : List ℕ
  pub bytes : List ℕ
  pub short : length bytes < buffer_size

abbrev pub as_received : Datagram → Received
as_received d = packet_from (inet d.addr) d.bytes

abbrev pub all_received : List Datagram → List Received
all_received [] = []
all_received (d ∷ ds) = as_received d ∷ all_received ds

-- The string of a buffer that holds the bytes, a zero and anything.
c_string-set :
    (bytes rest : List ℕ)
    → 0 < length rest
    → c_string (set (bytes ++ rest) (length bytes) 0) ≡ c_string bytes
unfolding c_string
c_string-set [] [] h = absurd (omega arith)
c_string-set [] (r ∷ rest) h = refl
c_string-set (b ∷ bytes) rest h = ap (λ l. if b == 0 then [] else b ∷ l) (c_string-set bytes rest h)

module _ (inet_ntop : List ℕ → List ℕ) where
  abbrev line_of : Datagram → Printed
  line_of d = record { sender = inet_ntop d.addr; text = c_string d.bytes }

  abbrev pub lines_of : List Datagram → List Printed
  lines_of [] = []
  lines_of (d ∷ ds) = line_of d ∷ lines_of ds

  stored : (d : Datagram) (buffer : List ℕ) → List ℕ
  stored d buffer = set (memcpy buffer d.bytes (length d.bytes)) (length d.bytes) 0

  length-stored :
      (d : Datagram) (buffer : List ℕ)
      → length buffer ≡ buffer_size
      → length (stored d buffer) ≡ buffer_size
  unfolding stored memcpy
  length-stored d buffer l =
      length-set (take (length d.bytes) d.bytes ++ drop (length d.bytes) buffer) (length d.bytes) 0
      ∙ omega (
        arith,
        length-append (take (length d.bytes) d.bytes) (drop (length d.bytes) buffer),
        ap length (take-all d.bytes),
        length-drop (length d.bytes) buffer,
        d.short,
      )

  c_string-stored :
      (d : Datagram) (buffer : List ℕ)
      → length buffer ≡ buffer_size
      → c_string (stored d buffer) ≡ c_string d.bytes
  unfolding stored memcpy
  c_string-stored d buffer l =
      ap (λ t. c_string (set (t ++ drop (length d.bytes) buffer) (length d.bytes) 0))
        (take-all d.bytes)
      ∙ c_string-set d.bytes (drop (length d.bytes) buffer)
          (omega (arith, length-drop (length d.bytes) buffer, d.short))

  received :
      (d : Datagram) (s : Receiver) (continue : Receiver → Served)
      → length s.buffer ≡ buffer_size
      → receive inet_ntop s continue (as_received d)
        ≡ continue (record {
          buffer = stored d s.buffer;
          addr_str = some (inet_ntop d.addr);
          printed = s.printed ++ (line_of d ∷ []);
        })
  unfolding receive show_sender print_line stored
  received d s continue l =
      let fits : leb buffer_size (length d.bytes) ≡ false = ground (arith, d.short) in
      rw (take_enough buffer_size d.bytes (omega (arith, d.short)), fits)
        (ap
          (λ t. continue (record {
            buffer = stored d s.buffer;
            addr_str = some (inet_ntop d.addr);
            printed = s.printed ++ (record { sender = inet_ntop d.addr; text = t } ∷ []);
          }))
          (c_string-stored d s.buffer l))

  server_rounds-lines_of :
      (ds : List Datagram) (s : Receiver)
      → length s.buffer ≡ buffer_size
      → server_rounds inet_ntop s (all_received ds) ≡ served (s.printed ++ lines_of ds)
  unfolding server_rounds
  server_rounds-lines_of [] s l = ap served (sym (append-nil s.printed))
  server_rounds-lines_of (d ∷ ds) s l =
      received d s (λ s'. server_rounds inet_ntop s' (all_received ds)) l
      ∙ server_rounds-lines_of ds
          (record {
            buffer = stored d s.buffer;
            addr_str = some (inet_ntop d.addr);
            printed = s.printed ++ (line_of d ∷ []);
          })
          (length-stored d s.buffer l)
      ∙ ap served (append_assoc s.printed (line_of d ∷ []) (lines_of ds))

  -- For datagrams from IPv4 senders that are shorter than the buffer: the server prints a line for each
  -- of them, in order, with its sender and its bytes up to its first zero, whatever longer
  -- datagrams were in the buffer before, and it accesses nothing outside the buffer.
  pub server_loop-lines_of :
      (ds : List Datagram) → server_loop inet_ntop (all_received ds) ≡ served (lines_of ds)
  unfolding server_loop udp_buffer
  server_loop-lines_of ds =
      server_rounds-lines_of ds (record { buffer = udp_buffer; addr_str = none; printed = [] })
        (length-replicate {A = ℕ} buffer_size 0)

-- ===== src/RawUdp/Datagram.antt =====
-- The frames that the UDP sender hands over, against the layouts of Ethernet, IPv4 and UDP.
use ibverb_prototype.Prelude.{
  ℕ, ◌+◌, ◌≡◌, refl, sym, ap, ◌∙◌, arith, Bool, true, false, leb, if◌then◌else◌, Option, none, some,
  List, [], ◌∷◌, ◌++◌, append_assoc, append-nil, length,
}
use ibverb_prototype.LookupAddr.{Addr, IsAddr}
use ibverb_prototype.Text.{message, snprintf}
use ibverb_prototype.Text.Message.{padded, snprintf-padded, length-message_le, length-message_mono}
use ibverb_prototype.RawUdp.{
  Buffer, ip_bytes, max_msg_size, ether_buffer, set_udp_headers, set_lengths, UdpSender, UdpEnd,
  stopped, failed, UdpFailure, not_sent, send_datagram, send_text, udp_loop, udp_main, ipv4check,
}
use ibverb_prototype.RawIbverbs.Send.Expected.{all_sent}
use ibverb_prototype.RawUdp.Frame.{
  udp_frame, checksum_for, base, prepared, checked, answer, taken_prepared,
}

-- What an ending has sent, and the failure that it reports.
abbrev pub frames_of : UdpEnd → List (List ℕ)
frames_of (stopped s) = s.frames
frames_of (failed f s) = s.frames

abbrev pub failure_of : UdpEnd → Option UdpFailure
failure_of (stopped s) = none
failure_of (failed f s) = some f

module _ (local remote : Addr) (port : ℕ) where
  -- The buffer before a round: that before the loop, or that of the message before.
  pub data IsBetween : ℕ → Buffer → Type 0 where
    at_start : IsBetween 0 (base local remote port)
    after_message : (k : ℕ) → IsBetween (k + 1) (checked local remote port (message k))

  -- Whatever the round before left, the headers are those of this round's message.
  pub prepared-set_lengths :
      (k : ℕ) (b : Buffer)
      → IsBetween k b
      → set_lengths (length (message k)) (record b { udp_data = padded max_msg_size (message k) })
        ≡ prepared local remote port (message k)
  unfolding prepared set_lengths checked
  prepared-set_lengths k b at_start = refl
  prepared-set_lengths k b (after_message j) = refl

  pub base_data : (base local remote port).udp_data ≡ padded max_msg_size []
  unfolding base set_udp_headers ether_buffer padded
  base_data = refl

  pub checked_data :
      (text : List ℕ) → (checked local remote port text).udp_data ≡ padded max_msg_size text
  unfolding checked prepared set_lengths
  checked_data text = refl

  pub formatted :
      (k : ℕ) (b : Buffer)
      → IsBetween k b
      → snprintf b.udp_data max_msg_size (message k)
        ≡ (length (message k), padded max_msg_size (message k))
  formatted k b at_start =
      ap (λ l. snprintf l max_msg_size (message 0)) base_data
      ∙ snprintf-padded max_msg_size [] (message 0) (omega arith)
          (omega (arith, length-message_le 0))
  formatted k b (after_message j) =
      ap (λ l. snprintf l max_msg_size (message (j + 1))) (checked_data (message j))
      ∙ snprintf-padded max_msg_size (message j) (message (j + 1))
          (length-message_mono j (j + 1) (omega arith)) (omega (arith, length-message_le (j + 1)))

  -- The frames from message k on, one for each round up to the first whose `sendto` fails.
  unfoldable pub udp_frames : ℕ → List Bool → List (List ℕ)
  udp_frames k [] = []
  udp_frames k (false ∷ rest) = []
  udp_frames k (true ∷ rest) = udp_frame local remote port (message k) ∷ udp_frames (k + 1) rest

module _ (local remote : Addr) (port : ℕ) (wl : IsAddr local) (wr : IsAddr remote) where
  -- One round, up to the result of `sendto`: with the text in the buffer, and with the checksum.
  text_round :
      (k : ℕ) (b : Buffer) (fs : List (List ℕ)) (continue : UdpSender → UdpEnd) (sent : Bool)
      → IsBetween local remote port k b
      → send_text
          (record { buffer = b; count = k; frames = fs })
          continue
          sent
          (length (message k), padded max_msg_size (message k))
        ≡ send_datagram
            (length (message k))
            (record { buffer = prepared local remote port (message k); count = k + 1; frames = fs })
            continue
            sent
            (ipv4check (ip_bytes (prepared local remote port (message k)).ip_header) 20)
  unfolding send_text
  text_round k b fs continue sent v =
      let fits : leb max_msg_size (length (message k)) ≡ false =
        ground (arith, length-message_le k) in
      rw fits (
        ap
          (λ (b' : Buffer).
            send_datagram (length (message k)) (record { buffer = b'; count = k + 1; frames = fs })
              continue sent (ipv4check (ip_bytes b'.ip_header) 20))
          (prepared-set_lengths local remote port k b v))

  data_round :
      (k : ℕ) (fs : List (List ℕ)) (continue : UdpSender → UdpEnd) (sent : Bool)
      → send_datagram
          (length (message k))
          (record { buffer = prepared local remote port (message k); count = k + 1; frames = fs })
          continue
          sent
          (some (checksum_for local remote (length (message k))))
        ≡ (if sent
            then continue (record {
              buffer = checked local remote port (message k);
              count = k + 1;
              frames = fs ++ (udp_frame local remote port (message k) ∷ []);
            })
            else failed not_sent (record {
              buffer = checked local remote port (message k);
              count = k + 1;
              frames = fs;
            }))
  unfolding send_datagram checked
  data_round k fs continue sent =
      ap
        (λ f.
          if sent
          then continue (record {
            buffer = checked local remote port (message k);
            count = k + 1;
            frames = fs ++ (f ∷ []);
          })
          else failed not_sent (record {
            buffer = checked local remote port (message k);
            count = k + 1;
            frames = fs;
          }))
        (taken_prepared local remote port wl wr (message k) (length-message_le k))

  round :
      (k : ℕ) (b : Buffer) (fs : List (List ℕ)) (continue : UdpSender → UdpEnd) (sent : Bool)
      → IsBetween local remote port k b
      → send_text
          (record { buffer = b; count = k; frames = fs })
          continue
          sent
          (snprintf b.udp_data max_msg_size (message k))
        ≡ (if sent
            then continue (record {
              buffer = checked local remote port (message k);
              count = k + 1;
              frames = fs ++ (udp_frame local remote port (message k) ∷ []);
            })
            else failed not_sent (record {
              buffer = checked local remote port (message k);
              count = k + 1;
              frames = fs;
            }))
  round k b fs continue sent v =
      ap (send_text (record { buffer = b; count = k; frames = fs }) continue sent)
        (formatted local remote port k b v)
      ∙ text_round k b fs continue sent v
      ∙ ap
          (send_datagram (length (message k))
            (record { buffer = prepared local remote port (message k); count = k + 1; frames = fs })
            continue sent)
          (answer local remote port (message k) (length-message_le k))
      ∙ data_round k fs continue sent

  udp_loop-udp_frames :
      (rounds : List Bool) (k : ℕ) (b : Buffer) (fs : List (List ℕ))
      → IsBetween local remote port k b
      → (frames_of (udp_loop (record { buffer = b; count = k; frames = fs }) rounds)
          ≡ fs ++ udp_frames local remote port k rounds)
        × (failure_of (udp_loop (record { buffer = b; count = k; frames = fs }) rounds)
            ≡ (if all_sent rounds then none else some not_sent))
  unfolding udp_loop udp_frames
  udp_loop-udp_frames [] k b fs v = (sym (append-nil fs), refl)
  udp_loop-udp_frames (false ∷ rest) k b fs v =
      rw (round k b fs (λ s. udp_loop s rest) false v) (sym (append-nil fs), refl)
  udp_loop-udp_frames (true ∷ rest) k b fs v =
      let later =
        udp_loop-udp_frames rest (k + 1) (checked local remote port (message k))
          (fs ++ (udp_frame local remote port (message k) ∷ [])) (after_message k) in
      rw (round k b fs (λ s. udp_loop s rest) true v) (
        later.0
            ∙ append_assoc fs (udp_frame local remote port (message k) ∷ [])
                (udp_frames local remote port (k + 1) rest),
        later.1,
      )

  -- For well-formed addresses, when the interface and the socket are there: round k hands over the
  -- Ethernet frame with the IPv4 and UDP headers of the text "Message: k", every multi-byte field
  -- highest byte first, the lengths those of the text, the header checksum right, and nothing left
  -- of the message before, up to and without the first round whose `sendto` fails. The program
  -- ends by such a failure, and otherwise by the flag; it never stops for another reason.
  pub udp_main-udp_frames :
      (rounds : List Bool)
      → (frames_of (udp_main true true local remote port rounds)
          ≡ udp_frames local remote port 0 rounds)
        × (failure_of (udp_main true true local remote port rounds)
            ≡ (if all_sent rounds then none else some not_sent))
  unfolding udp_main base
  udp_main-udp_frames rounds = udp_loop-udp_frames rounds 0 (base local remote port) [] at_start

-- ===== src/RawIbverbs/Send/Rounds.antt =====
-- One round of the send loop.
use ibverb_prototype.Prelude.{
  ℕ, ◌+◌, ◌≤◌, ◌≡◌, refl, ap, ap₂, ◌∙◌, arith, Bool, true, false, leb, if◌then◌else◌, List, [], ◌∷◌,
  ◌++◌, length, length-append, take, take_enough, memcpy, memcpy_whole,
}
use ibverb_prototype.Crc.{crc32}
use ibverb_prototype.Crc.Reference.{bitwise_crc}
use ibverb_prototype.Packet.{Packet, packet_bytes, msg_size}
use ibverb_prototype.Packet.Layout.{IsArray, IsPacket, packet_bytes-IsArray}
use ibverb_prototype.Text.{message}
use ibverb_prototype.Text.Message.{padded, padded-IsArray, snprintf-padded, length-message_le}
use ibverb_prototype.RawIbverbs.{total_header_size, checksum_size}
use ibverb_prototype.RawIbverbs.Checksum.{crc32-array}
use ibverb_prototype.RawIbverbs.Send.{
  Sender, Ending, failed, not_sent, no_message, send_frame, send_checked, send_formatted,
  send_round,
}
use ibverb_prototype.RawIbverbs.Send.Expected.{body, loaded, trailer, frame}

-- The sender after a round.
unfoldable pub after : Packet → ℕ → ℕ → List (List ℕ) → Sender
after p header_crc k fs = record {
  packet = loaded p k;
  beyond = trailer header_crc k;
  count = k + 1;
  frames = fs;
}

pub body-IsArray : (k : ℕ) → IsArray msg_size (body k)
unfolding body
body-IsArray k = padded-IsArray msg_size k (omega arith)

module _ (p : Packet) (header_crc : ℕ) (w : IsPacket p) where
  loaded-IsPacket : (k : ℕ) → IsPacket (loaded p k)
  unfolding loaded
  loaded-IsPacket k = record {
    h_dest = w.h_dest;
    h_source = w.h_source;
    h_proto = w.h_proto;
    headers = w.headers;
    payload = body-IsArray k;
  }

  -- The four bytes behind the packet are the trailer, and the frame takes in all of them.
  stored :
      (k : ℕ) (b : List ℕ) → length b ≡ 4 → memcpy b (trailer header_crc k) 4 ≡ trailer header_crc k
  stored k b l = memcpy_whole b (trailer header_crc k) 4 (unfold trailer in refl) l

  whole :
      (k : ℕ)
      → take
          (msg_size + total_header_size + checksum_size)
          (packet_bytes (loaded p k) ++ trailer header_crc k)
        ≡ frame p header_crc k
  unfolding frame
  whole k =
      take_enough (msg_size + total_header_size + checksum_size)
        (packet_bytes (loaded p k) ++ trailer header_crc k)
        (omega (
          arith,
          length-append (packet_bytes (loaded p k)) (trailer header_crc k),
          (packet_bytes-IsArray (loaded p k) (loaded-IsPacket k)).0,
          length-trailer k,
        ))
    where
      length-trailer : (k : ℕ) → length (trailer header_crc k) ≡ 4
      length-trailer k = unfold trailer in refl

  send_frame-frame :
      (k : ℕ) (b : List ℕ) (fs : List (List ℕ)) (continue : Sender → Ending) (sent : Bool)
      → length b ≡ 4
      → send_frame
          (bitwise_crc header_crc (body k))
          (record { packet = loaded p k; beyond = b; count = k + 1; frames = fs })
          continue
          sent
        ≡ (if sent
            then continue (after p header_crc k (fs ++ (frame p header_crc k ∷ [])))
            else failed not_sent (after p header_crc k fs))
  unfolding send_frame after trailer
  send_frame-frame k b fs continue true l =
      ap₂
        (λ filled fr. continue (record {
          packet = loaded p k;
          beyond = filled;
          count = k + 1;
          frames = fs ++ (fr ∷ []);
        }))
        (stored k b l)
        (ap
            (λ filled.
              take (msg_size + total_header_size + checksum_size)
                (packet_bytes (loaded p k) ++ filled))
            (stored k b l)
          ∙ whole k)
  send_frame-frame k b fs continue false l =
      ap
        (λ filled.
          failed not_sent
            (record { packet = loaded p k; beyond = filled; count = k + 1; frames = fs }))
        (stored k b l)

  send_formatted-frame :
      (k : ℕ) (old : List ℕ) (b : List ℕ) (fs : List (List ℕ)) (continue : Sender → Ending)
      (sent : Bool)
      → length b ≡ 4
      → send_formatted header_crc
          (record { packet = record p { payload = old }; beyond = b; count = k; frames = fs })
          continue
          sent
          (length (message k), body k)
        ≡ (if sent
            then continue (after p header_crc k (fs ++ (frame p header_crc k ∷ [])))
            else failed not_sent (after p header_crc k fs))
  send_formatted-frame k old b fs continue sent l =
      enters
      ∙ ap (send_checked s' continue sent)
          (crc32-array header_crc msg_size (body k) (body-IsArray k) (omega arith))
      ∙ (unfold send_checked in send_frame-frame k b fs continue sent l)
    where
      s : Sender
      s = record { packet = record p { payload = old }; beyond = b; count = k; frames = fs }

      s' : Sender
      s' = record { packet = loaded p k; beyond = b; count = k + 1; frames = fs }

      fits : leb msg_size (length (message k)) ≡ false
      fits = ground (arith, length-message_le k)

      enters :
          send_formatted header_crc s continue sent (length (message k), body k)
          ≡ send_checked s' continue sent (crc32 header_crc (body k) msg_size)
      enters =
          unfold send_formatted loaded in
          ap
            (λ (t : Bool).
              if t
              then failed no_message s'
              else send_checked s' continue sent (crc32 header_crc (body k) msg_size))
            fits

  -- One round from a buffer that holds an earlier message: the text fits, the checksum is computed.
  pub send_round-frame :
      (k : ℕ) (old : List ℕ) (b : List ℕ) (fs : List (List ℕ)) (continue : Sender → Ending)
      (sent : Bool)
      → length old ≤ length (message k)
      → length b ≡ 4
      → send_round header_crc
          (record {
            packet = record p { payload = padded msg_size old };
            beyond = b;
            count = k;
            frames = fs;
          })
          continue
          sent
        ≡ (if sent
            then continue (after p header_crc k (fs ++ (frame p header_crc k ∷ [])))
            else failed not_sent (after p header_crc k fs))
  send_round-frame k old b fs continue sent shorter l =
      formatted ∙ send_formatted-frame k (padded msg_size old) b fs continue sent l
    where
      s : Sender
      s = record {
        packet = record p { payload = padded msg_size old };
        beyond = b;
        count = k;
        frames = fs;
      }

      formatted :
          send_round header_crc s continue sent
          ≡ send_formatted header_crc s continue sent (length (message k), body k)
      formatted =
          unfold send_round body in
          ap (send_formatted header_crc s continue sent)
            (snprintf-padded msg_size old (message k) shorter (omega (arith, length-message_le k)))

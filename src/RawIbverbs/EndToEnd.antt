-- ===== src/RawIbverbs/EndToEnd.antt =====
-- The frames that a run of the host sender puts on the wire, from its addresses alone.
use ibverb_prototype.Prelude.{
  ℕ, ◌+◌, ◌^◌, ◌<◌, ◌≡◌, refl, arith, Bool, true, Option, some, ◌>>=◌, List, [], ◌∷◌, ◌++◌, take,
  drop, le_bytes, length-replicate, All-replicate,
}
use ibverb_prototype.Crc.Reference.{bitwise_crc}
use ibverb_prototype.Crc.Correct.{IsByte}
use ibverb_prototype.LookupAddr.{Addr, IsAddr}
use ibverb_prototype.Packet.{Packet, header_bytes, msg_size}
use ibverb_prototype.Packet.Layout.{IsPacket}
use ibverb_prototype.Text.Message.{padded}
use ibverb_prototype.RawIbverbs.{full_packet, set_headers, init_invariant_headers}
use ibverb_prototype.RawIbverbs.Image.{checksum_image}
use ibverb_prototype.RawIbverbs.Wire.{ud_frame}
use ibverb_prototype.RawIbverbs.Send.{Ending, ib_host_send_loop}
use ibverb_prototype.RawIbverbs.Send.Expected.{body}

-- The bytes between the Ethernet header and the payload.
ib_part : List ℕ → List ℕ
ib_part f = take 60 (drop 14 f)

-- The datagram with message k and the checksum that a receiver computes from its bytes.
unfoldable pub checked_frame : Addr → Addr → ℕ → ℕ → List ℕ
unfolding ib_part
checked_frame src dest qp k =
    let f = ud_frame src dest qp (body k) in
    f ++ le_bytes 4 (bitwise_crc 0 (checksum_image (ib_part f) ++ body k))

unfoldable pub checked_frames : Addr → Addr → ℕ → ℕ → List Bool → List (List ℕ)
checked_frames src dest qp k [] = []
checked_frames src dest qp k (Bool.false ∷ rest) = []
checked_frames src dest qp k (true ∷ rest) =
    checked_frame src dest qp k ∷ checked_frames src dest qp (k + 1) rest

-- `main` of the host mode from the addresses on: the headers, then the loop.
unfoldable pub host_main : Addr → Addr → ℕ → Bool → List ℕ → List Bool → Option Ending
host_main src dest qp socket beyond rounds =
    init_invariant_headers full_packet src dest qp >>= λ (header_crc, q).
    some (ib_host_send_loop socket q beyond header_crc rounds)

pub full_packet-IsPacket : IsPacket full_packet
unfolding full_packet
full_packet-IsPacket = record {
  h_dest = (refl, omega arith);
  h_source = (refl, omega arith);
  h_proto = omega arith;
  headers = record {
    grh = record {
      traffic_class_p1 = omega arith;
      ip_version = omega arith;
      traffic_class_p2 = omega arith;
      flow_label = omega arith;
      payload_length = omega arith;
      next_header = omega arith;
      hop_limit = omega arith;
      source = (refl, omega arith);
      dest = (refl, omega arith);
    };
    bth = omega arith;
    deth = omega arith;
  };
  payload = (length-replicate {A = ℕ} msg_size 0, All-replicate IsByte msg_size 0 (omega arith));
}

pub full_packet_zeros : full_packet.payload ≡ padded msg_size []
unfolding full_packet padded
full_packet_zeros = refl

module _ (src dest : Addr) (qp : ℕ) (ws : IsAddr src) (wd : IsAddr dest) (word : qp < 2 ^ 32) where
  q : Packet
  q = set_headers full_packet src dest qp

  header_crc : ℕ
  header_crc = bitwise_crc 0 (checksum_image (header_bytes q.ib_header))

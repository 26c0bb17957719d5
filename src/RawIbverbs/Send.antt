-- ===== src/RawIbverbs/Send.antt =====
-- `ib_host_send_loop`, over the memory that it writes and the frames that it hands to the kernel.
pub mod Expected
pub mod Rounds
pub mod Frames
use ibverb_prototype.Prelude.{
  ℕ, ◌+◌, Bool, true, false, ltb, leb, if◌then◌else◌, Option, none, some, List, [], ◌∷◌, ◌++◌, take,
  le_bytes, memcpy,
}
use ibverb_prototype.Crc.{crc32}
use ibverb_prototype.Packet.{Packet, packet_bytes, msg_size}
use ibverb_prototype.Text.{message, snprintf}
use ibverb_prototype.RawIbverbs.{total_header_size, checksum_size}

-- `packet`, the memory that follows it, `count`, and the frames sent so far, oldest first.
-- The checksum is stored through `&packet->data[MSG_SIZE]`, behind the last byte of the struct.
pub record Sender : Type 0 where
  pub packet : Packet
  pub beyond : List ℕ
  pub count : ℕ
  pub frames : List (List ℕ)

-- How the function ends: by the flag, or by one of its calls of `exit`. A fault is a read past the
-- end of an object.
pub data Failure : Type 0 where
  no_socket no_message not_sent fault : Failure

pub data Ending : Type 0 where
  stopped : Sender → Ending
  failed : Failure → Sender → Ending

-- The checksum is stored and the frame handed over; `sent` is whether `sendto` succeeds.
unfoldable pub send_frame : ℕ → Sender → (Sender → Ending) → Bool → Ending
send_frame crc s continue sent =
    let filled = memcpy s.beyond (le_bytes 4 crc) 4 in
    let s' = record s { beyond = filled } in
    let size : ℕ = msg_size + total_header_size + checksum_size in
    let frame = take size (packet_bytes s.packet ++ filled) in
    if sent then continue (record s' { frames = s.frames ++ (frame ∷ []) }) else failed not_sent s'

-- What follows the call of `crc32`.
unfoldable pub send_checked : Sender → (Sender → Ending) → Bool → Option ℕ → Ending
unfolding send_frame
send_checked s continue sent none = failed fault s
send_checked s continue sent (some crc) = send_frame crc s continue sent

-- What follows the call of `snprintf`, given its result and the payload that it leaves.
unfoldable pub send_formatted : ℕ → Sender → (Sender → Ending) → Bool → ℕ × List ℕ → Ending
unfolding send_checked
send_formatted header_crc s continue sent (result, filled) =
    let packet = s.packet in
    let s' = record s { packet = record packet { payload = filled }; count = s.count + 1 } in
    if leb msg_size result
    then failed no_message s'
    else send_checked s' continue sent (crc32 header_crc filled msg_size)

-- The body of the loop, and what follows it.
unfoldable pub send_round : ℕ → Sender → (Sender → Ending) → Bool → Ending
unfolding send_formatted
send_round header_crc s continue sent =
    send_formatted header_crc s continue sent (snprintf s.packet.payload msg_size (message s.count))

-- The loop. The list has, for each test of `packet_loop` that finds it set, whether the round's
-- `sendto` succeeds; at the list's end the signal handler has cleared the flag.
unfoldable pub send_loop : ℕ → Sender → List Bool → Ending
unfolding send_round
send_loop header_crc s [] = stopped s
send_loop header_crc s (sent ∷ rest) =
    send_round header_crc s (λ s'. send_loop header_crc s' rest) sent

-- `ib_host_send_loop`; the first argument is whether `socket` succeeds.
unfoldable pub ib_host_send_loop : Bool → Packet → List ℕ → ℕ → List Bool → Ending
unfolding send_loop
ib_host_send_loop socket packet beyond header_crc rounds =
    let s : Sender = record { packet = packet; beyond = beyond; count = 0; frames = [] } in
    if socket then send_loop header_crc s rounds else failed no_socket s

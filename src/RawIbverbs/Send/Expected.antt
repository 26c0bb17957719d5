-- ===== src/RawIbverbs/Send/Expected.antt =====
-- The frames that the send loop is meant to hand over, and how it ends.
use ibverb_prototype.Prelude.{
  ℕ, ◌+◌, Bool, true, false, Option, none, some, List, [], ◌∷◌, ◌++◌, le_bytes, ◌&&◌,
}
use ibverb_prototype.Crc.Reference.{bitwise_crc}
use ibverb_prototype.Packet.{Packet, packet_bytes, msg_size}
use ibverb_prototype.Text.{message}
use ibverb_prototype.Text.Message.{padded}
use ibverb_prototype.RawIbverbs.Send.{Ending, stopped, failed, Failure}

-- The payload of message k: the text, and zeros up to `MSG_SIZE`.
unfoldable pub body : ℕ → List ℕ
body k = padded msg_size (message k)

unfoldable pub loaded : Packet → ℕ → Packet
loaded p k = record p { payload = body k }

-- The checksum of message k as it stands on the wire, lowest byte first.
unfoldable pub trailer : ℕ → ℕ → List ℕ
trailer header_crc k = le_bytes 4 (bitwise_crc header_crc (body k))

unfoldable pub frame : Packet → ℕ → ℕ → List ℕ
frame p header_crc k = packet_bytes (loaded p k) ++ trailer header_crc k

-- The frames from message k on, one for each round up to the first whose `sendto` fails.
unfoldable pub expected : Packet → ℕ → ℕ → List Bool → List (List ℕ)
expected p header_crc k [] = []
expected p header_crc k (false ∷ rest) = []
expected p header_crc k (true ∷ rest) = frame p header_crc k ∷ expected p header_crc (k + 1) rest

-- What an ending has sent, and the failure that it reports.
abbrev pub sent_frames : Ending → List (List ℕ)
sent_frames (stopped s) = s.frames
sent_frames (failed f s) = s.frames

abbrev pub failure : Ending → Option Failure
failure (stopped s) = none
failure (failed f s) = some f

abbrev pub all_sent : List Bool → Bool
all_sent [] = true
all_sent (sent ∷ rest) = sent && all_sent rest

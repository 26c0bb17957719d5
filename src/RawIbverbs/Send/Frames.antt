-- ===== src/RawIbverbs/Send/Frames.antt =====
-- Which frames the send loop hands over, and how it can end.
use ibverb_prototype.Packet.{Packet}

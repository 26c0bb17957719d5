-- ===== src/FpgaHost/Safety.antt =====
-- What the loop of fpga_host.cc may leave on the channel, whatever the OpenCL library answers and whichever
-- turns its queues take.
use ibverb_prototype.Prelude.{ℕ, ◌≡◌, List, [], ◌∷◌, ◌++◌, memcpy}
use ibverb_prototype.Packet.{Packet, packet_bytes}
use ibverb_prototype.RawIbverbs.{total_header_size}
use ibverb_prototype.OpenCl.{Runtime, Command, Board}
use ibverb_prototype.OpenCl.Queues.{run_turns, run_kernel}
use ibverb_prototype.OpenCl.Wrapper.{ClKernel}
use ibverb_prototype.FpgaHost.{Turns}
use ibverb_prototype.FpgaHost.Launch.{board, Output}
use ibverb_prototype.FpgaHost.Phases.{frame_of}
use ibverb_prototype.FpgaHost.Ending.{loop_args}

module _ (rt : Runtime) (t : Turns) (crc : ℕ) (h old : List ℕ) (sent : Output) where
  Start : Board
  Start = board h old [] [] sent

  module _ (k : ClKernel)
      (runs : (mem : List ℕ)
        → run_kernel t.scratch mem
            ((loop_args crc k).args 0)
            ((loop_args crc k).args 1)
            ((loop_args crc k).args 2)
            ((loop_args crc k).args 3)
          ≡ frame_of t.scratch crc mem) where
    launched : Board → Board
    launched b = record b {
      launched = b.launched ++ (Command.nd_range (loop_args crc k).args ∷ []);
    }

    copy_turns : Board → Board
    copy_turns b =
        run_turns t.scratch t.after_copy
          (record b { own = b.own ++ (Command.copy_buffer total_header_size ∷ []) })

  -- The board before the host's buffer is filled.
  module _ (mem : List ℕ) (packet : Packet)
      (filled : memcpy mem (packet_bytes packet) total_header_size ≡ h) where
    First : Board
    First = board mem old [] [] sent

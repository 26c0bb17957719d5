-- ===== src/FpgaHost/Run.antt =====
-- The board of fpga_host.cc from the mapped buffer to the end, when the OpenCL library's calls succeed.
use ibverb_prototype.Prelude.{
  ℕ, ◌≡◌, refl, Bool, Bool-cases, inl, inr, ◌||◌, if◌then◌else◌, Option, none, List, [], ◌∷◌, ◌++◌,
  All-append, memcpy,
}
use ibverb_prototype.Packet.{Packet, packet_bytes}
use ibverb_prototype.RawIbverbs.{total_header_size}
use ibverb_prototype.Kernel.{write_ibverb_packet}
use ibverb_prototype.OpenCl.{done, Arg, Program, Runtime, Command, Board, Host, returned}
use ibverb_prototype.OpenCl.Queues.{run_turns, run_kernel}
use ibverb_prototype.OpenCl.Wrapper.{ClKernel, assign}
use ibverb_prototype.FpgaHost.{Turns, launch_kernel, make_buffers}
use ibverb_prototype.FpgaHost.Launch.{
  board, Output, any_own, own_first, IsPlain, settle, run_turns_plain, run_turns_copy,
  settle_copied, settle_waiting,
}

abbrev pub working : Runtime → Runtime
working rt = record rt { answers = λ _. done tt }

-- The headers get to the device before the kernel reads its memory.
unfoldable pub is_copied : Turns → Bool
unfolding any_own own_first
is_copied t = any_own t.after_copy || own_first t.after_launch

abbrev pub own_added : Command → Board → Board
own_added c b = record b { own = b.own ++ (c ∷ []) }

abbrev launched_added : (ℕ → Option Arg) → Board → Board
launched_added args b = record b { launched = b.launched ++ (Command.nd_range args ∷ []) }

-- The arguments of the run.
abbrev pub run_args : ℕ → ClKernel → ClKernel
unfolding assign
run_args crc k = assign 3 (Arg.word_arg 1) (
    assign 2 (Arg.word_arg total_header_size)
      (assign 1 (Arg.word_arg crc) (assign 0 Arg.buffer_arg k)))

module _ (rt : Runtime) (t : Turns) (crc : ℕ) where
  -- What becomes of the board from the copy on.
  unfoldable pub whole_run : ClKernel → Board → Board
  unfolding settle run_turns
  whole_run k b = run_turns t.scratch t.after_unmap (
      own_added Command.unmap (
        settle t.scratch t.after_launch (
          launched_added (run_args crc k).args (
            run_turns t.scratch t.after_copy
              (own_added (Command.copy_buffer total_header_size) b)))))

  launch_kernel_run :
      (k : ClKernel) (s : Host)
      → launch_kernel (working rt) t crc k s
        ≡ returned tt (record s { board = whole_run k s.board })
  unfolding launch_kernel whole_run
  launch_kernel_run k s = refl

  module _ (h old : List ℕ) (sent : Output) where
    -- The memory that the kernel reads.
    unfoldable pub read : List ℕ
    unfolding is_copied
    read = if is_copied t then memcpy old h total_header_size else old

    pub whole_run_sent :
        (k : ClKernel)
        → (whole_run k (board h old [] [] sent)).sent
          ≡ sent ++ (write_ibverb_packet read crc total_header_size t.scratch ∷ [])
    unfolding whole_run read run_kernel run_args
    whole_run_sent k = elim (Bool-cases (any_own t.after_copy)) [
      | inl copied ↦
          rw
            (
              run_turns_copy t.scratch h total_header_size t.after_copy old sent,
              copied,
              settle_copied t.scratch h total_header_size (run_args crc k).args t.after_launch
                  (memcpy old h total_header_size) sent,
            )
            (run_turns_plain t.scratch h t.after_unmap (memcpy old h total_header_size)
              (Command.unmap ∷ [])
              (sent
                ++ (write_ibverb_packet (memcpy old h total_header_size) crc total_header_size
                      t.scratch
                    ∷ []))
              (tt, tt))
      | inr waits ↦
          let (d, own, plain, run) =
            settle_waiting t.scratch h total_header_size (run_args crc k).args t.after_launch old
              sent in
          rw (run_turns_copy t.scratch h total_header_size t.after_copy old sent, waits, run)
            (run_turns_plain t.scratch h t.after_unmap d (own ++ (Command.unmap ∷ [])) _
              (All-append IsPlain own (Command.unmap ∷ []) plain (tt, tt)))
    ]

  pub make_buffers_run :
      (packet : Packet) (p : Program) (s : Host)
      → make_buffers (working rt) t packet crc p s
        ≡ returned tt (record s {
          board =
              whole_run
                (record { args = λ _. none })
                (record s.board {
                  host_mem = memcpy s.board.host_mem (packet_bytes packet) total_header_size;
                });
        })
  unfolding make_buffers launch_kernel whole_run
  make_buffers_run packet p s = refl

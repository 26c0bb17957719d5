-- ===== src/OpenCl/Queues.antt =====
-- The in-order command queues of the library, as far as fpga_host.cc relies on them: a queue runs its
-- commands one after the other, oldest first, and nothing orders the commands of two queues.
use ibverb_prototype.Prelude.{ℕ, Option, none, some, List, [], ◌∷◌, ◌++◌, memcpy}
use ibverb_prototype.Kernel.{ChannelLine, write_ibverb_packet}
use ibverb_prototype.OpenCl.{Arg, Command, Board}

-- The program's own queue, and the one of the kernel's wrapper.
pub data Queue : Type 0 where
  own_queue kernel_queue : Queue

-- The kernel with its four arguments, over the buffer's memory and what its local array holds before.
unfoldable pub run_kernel :
    List ℕ → List ℕ → Option Arg → Option Arg → Option Arg → Option Arg → Option (List ChannelLine)
run_kernel scratch mem (some Arg.buffer_arg) (some (Arg.word_arg crc)) (some (Arg.word_arg size))
      (some chan) =
    write_ibverb_packet mem crc size scratch
run_kernel scratch mem _ _ _ _ = none

unfoldable pub run_command : List ℕ → Command → Board → Board
unfolding memcpy run_kernel
run_command scratch (Command.copy_buffer n) b = record b {
  device_mem = memcpy b.device_mem b.host_mem n;
}
run_command scratch Command.unmap b = b
run_command scratch (Command.nd_range args) b = record b {
  sent = b.sent ++ (run_kernel scratch b.device_mem (args 0) (args 1) (args 2) (args 3) ∷ []);
}

-- The oldest command of a queue is run, if there is one.
unfoldable pub run_own : List ℕ → List Command → Board → Board
unfolding run_command
run_own scratch [] b = b
run_own scratch (c ∷ cs) b = run_command scratch c (record b { own = cs })

unfoldable pub run_launched : List ℕ → List Command → Board → Board
unfolding run_command
run_launched scratch [] b = b
run_launched scratch (c ∷ cs) b = run_command scratch c (record b { launched = cs })

unfoldable pub run_next : List ℕ → Queue → Board → Board
unfolding run_own run_launched
run_next scratch Queue.own_queue b = run_own scratch b.own b
run_next scratch Queue.kernel_queue b = run_launched scratch b.launched b

-- The board while the host does something else: the queues take their turns in the given order.
unfoldable pub run_turns : List ℕ → List Queue → Board → Board
unfolding run_next
run_turns scratch [] b = b
run_turns scratch (q ∷ qs) b = run_turns scratch qs (run_next scratch q b)

-- What the kernel's queue has left is run: a wait for its last command.
unfoldable pub drain : List ℕ → List Command → Board → Board
unfolding run_command
drain scratch [] b = b
drain scratch (c ∷ cs) b = drain scratch cs (run_command scratch c (record b { launched = cs }))

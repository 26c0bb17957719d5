-- ===== src/FpgaHost.antt =====
-- fpga_host.cc: the loop that hands a packet's headers to the FPGA's kernel.
pub mod Launch
pub mod Run
pub mod Frames
pub mod EndToEnd
pub mod Phases
pub mod Rules
pub mod Ending
pub mod Safety
mod Tests
use ibverb_prototype.Prelude.{ℕ, List, [], ◌∷◌, ◌++◌, memcpy}
use ibverb_prototype.Packet.{Packet, packet_bytes}
use ibverb_prototype.RawIbverbs.{total_header_size}
use ibverb_prototype.OpenCl.{
  Device, Program, Arg, Call, Runtime, Command, Board, Host, Outcome, returned, undefined, attempt,
  after,
}
use ibverb_prototype.OpenCl.Messages.{codes}
use ibverb_prototype.OpenCl.Context.{create_context, get_program}
use ibverb_prototype.OpenCl.Queues.{Queue, run_turns}
use ibverb_prototype.OpenCl.Wrapper.{ClKernel, make_wrapper, invoke, finish}

-- What the board does while the host goes on: the turns of the queues after the copy is enqueued, after
-- the kernel is, and after the end of the mapping is; and what the kernel's local array holds.
pub record Turns : Type 0 where
  pub after_copy : List Queue
  pub after_launch : List Queue
  pub after_unmap : List Queue
  pub scratch : List ℕ

-- A command is added to the program's own queue.
unfoldable pub enqueue : Command → Host → Host
enqueue c s = let b = s.board in record s { board = record b { own = b.own ++ (c ∷ []) } }

unfoldable pub let_run : List ℕ → List Queue → Host → Host
unfolding run_turns
let_run scratch turns s = record s { board = run_turns scratch turns s.board }

-- `memcpy(buffer, packet, header_size)`, into the mapped buffer.
unfoldable pub fill_host : Packet → Host → Host
unfolding packet_bytes memcpy
fill_host packet s =
    let b = s.board in
    let mem = memcpy b.host_mem (packet_bytes packet) total_header_size in
    record s { board = record b { host_mem = mem } }

module _ (rt : Runtime) (t : Turns) where
  -- From the wait for the kernel on.
  unfoldable pub end_loop : Host → Outcome (Unit {0})
  unfolding attempt after finish enqueue let_run
  end_loop s = after (finish rt t.scratch s) (λ _ s1.
      attempt (rt.answers Call.enqueue_unmap) s1
        (λ _ s2. returned tt (let_run t.scratch t.after_unmap (enqueue Command.unmap s2))))

  -- From the copy on.
  unfoldable pub launch_kernel : ℕ → ClKernel → Host → Outcome (Unit {0})
  unfolding attempt after invoke enqueue let_run end_loop
  launch_kernel header_crc kernel s = attempt (rt.answers Call.enqueue_copy) s (λ _ s1.
      let args =
        Arg.buffer_arg
        ∷ Arg.word_arg header_crc
        ∷ Arg.word_arg total_header_size
        ∷ Arg.word_arg 1
        ∷ [] in
      let copied =
        let_run t.scratch t.after_copy (enqueue (Command.copy_buffer total_header_size) s1) in
      after (invoke rt kernel args copied) (λ _ s2. end_loop (let_run t.scratch t.after_launch s2)))

  -- From the queue of the program on.
  unfoldable pub make_buffers : Packet → ℕ → Program → Host → Outcome (Unit {0})
  unfolding attempt after make_wrapper fill_host launch_kernel
  make_buffers packet header_crc program s = attempt (rt.answers Call.make_queue) s (λ _ s1.
      attempt (rt.answers Call.make_device_buffer) s1 (λ _ s2.
        attempt (rt.answers Call.make_host_buffer) s2 (λ _ s3.
          attempt (rt.answers Call.map_buffer) s3 (λ _ s4.
            after (make_wrapper rt program (fill_host packet s4))
              (λ kernel s5. launch_kernel header_crc kernel s5)))))

  -- With the devices of the context.
  unfoldable pub use_devices : Packet → ℕ → List Device → Host → Outcome (Unit {0})
  unfolding after get_program make_buffers
  use_devices packet header_crc [] s = undefined s
  use_devices packet header_crc (device ∷ devices) s =
      after (get_program rt device (codes "ibverbs.aocx") s)
        (λ program s1. make_buffers packet header_crc program s1)

  -- `ib_fpga_send_loop`, whose host buffer and device buffer are those of the board.
  unfoldable pub ib_fpga_send_loop : Packet → ℕ → Host → Outcome (Unit {0})
  unfolding after create_context use_devices
  ib_fpga_send_loop packet header_crc s =
      after (create_context rt s) (λ devices s1. use_devices packet header_crc devices s1)

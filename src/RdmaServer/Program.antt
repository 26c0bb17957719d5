-- ===== src/RdmaServer/Program.antt =====
-- `main` of rdma_server.c from `rdma_init_server` to its return, and what holds when it ends.
use ibverb_prototype.Prelude.{ℕ, ◌≡◌, refl, true, some, List, []}
use ibverb_prototype.Rdma.Request.{RecvWr}
use ibverb_prototype.Rdma.Buffers.{ServerArrays, server_arrays}
use ibverb_prototype.Rdma.Device.{Device, IsFifo}
use ibverb_prototype.Rdma.Setup.State.{
  Resource, result_array, recv_array, Env, Rdma, Ending, returned, exited, log,
}
use ibverb_prototype.Rdma.Setup.Cleanup.{free, free_if, free_arrays, rdma_cleanup}
use ibverb_prototype.Rdma.Setup.Programs.{rdma_init_server}
use ibverb_prototype.Rdma.Setup.Held.{held}
use ibverb_prototype.Rdma.Setup.Attributes.{QpState}
use ibverb_prototype.Rdma.Setup.QueuePair.{IsIn, server_ready-IsIn}
use ibverb_prototype.Rdma.Setup.Tries.{closed, unregistered, rdma_cleanup-closed}
use ibverb_prototype.Rdma.Setup.Released.{IsReleased}
use ibverb_prototype.Rdma.Setup.ServerPaths.{IsSetUp, server_ready, rdma_init_server-IsSetUp}
use ibverb_prototype.RdmaServer.{
  ServerEnd, finished, failed, fault, serve_from, server_main, completion_queue_size,
}
use ibverb_prototype.RdmaServer.Order.{IsOrdered}
use ibverb_prototype.RdmaServer.Main.{server_main-IsOrdered}

module _ (env : Env) (d : Device RecvWr) where
  -- The label `cleanup`. After a fault there is nothing to say.
  unfoldable pub clean_up : ServerEnd d → Rdma → Ending (ServerEnd d)
  unfolding rdma_cleanup free
  clean_up (finished t) s = rdma_cleanup env (free result_array s) (λ s. returned (finished t) s)
  clean_up (failed t) s = rdma_cleanup env (free result_array s) (λ s. returned (failed t) s)
  clean_up fault s = returned fault s

  unfoldable pub after_init : d.Q → ℕ → Ending ServerArrays → Ending (ServerEnd d)
  unfolding clean_up serve_from
  after_init queue rounds (returned a s) =
      clean_up (serve_from d completion_queue_size a queue rounds) s
  after_init queue rounds (exited s) = exited s

  unfoldable pub server_program : List ℕ → d.Q → ℕ → Ending (ServerEnd d)
  unfolding after_init rdma_init_server
  server_program dev_name queue rounds =
      after_init queue rounds (rdma_init_server env dev_name completion_queue_size)

  -- The two ways in which the program ends.
  unfoldable pub IsServed : Ending (ServerEnd d) → Type 0
  unfolding IsReleased
  IsServed (returned e s) =
      IsOrdered d completion_queue_size e × (held s.trace ≡ some []) × IsIn s.calls QpState.rtr
  IsServed (exited s) = IsReleased env recv_array s

module _ (env : Env) (closes : (r : Resource) → env.releases r ≡ true) (d : Device RecvWr)
    (fifo : IsFifo (λ (r : RecvWr). r.wr_id) d) where
  queue_pair : IsIn (server_ready env completion_queue_size).calls QpState.rtr
  queue_pair = server_ready-IsIn env completion_queue_size

  clean_up-IsServed :
      (e : ServerEnd d)
      → IsOrdered d completion_queue_size e
      → IsServed env d (clean_up env d e (server_ready env completion_queue_size))
  unfolding clean_up IsServed closed unregistered free free_if free_arrays log
  clean_up-IsServed (finished t) o = rw (rdma_cleanup-closed env closes) (o, refl, queue_pair)
  clean_up-IsServed (failed t) o = rw (rdma_cleanup-closed env closes) (o, refl, queue_pair)
  clean_up-IsServed fault o = absurd o

  after_init-IsServed :
      (queue : d.Q) (rounds : ℕ) (e : Ending ServerArrays)
      → d.outstanding queue ≡ []
      → IsSetUp env recv_array
          (server_arrays completion_queue_size env.header_key env.data_key)
          (server_ready env completion_queue_size)
          e
      → IsServed env d (after_init env d queue rounds e)
  unfolding after_init IsServed IsSetUp server_main
  after_init-IsServed queue rounds (returned a s) empty (arrays, statics) =
      rw (arrays, statics)
        (clean_up-IsServed (server_main d env.header_key env.data_key queue rounds)
          (server_main-IsOrdered d fifo env.header_key env.data_key queue rounds empty))
  after_init-IsServed queue rounds (exited s) empty left = left

  -- The whole program, on a device that keeps the order of its queue and starts with it empty, and with
  -- libraries whose releases succeed, whatever their other calls answer and for any number of rounds.
  -- If it returns, with success or failure, then it has reported the completions of requests
  -- 0, 1, …, 99, 0, 1, … in this order, each with its own piece of the data buffer; the queue pair was ready to receive, by legal changes of
  -- its state; everything that
  -- was acquired is released, in an order in which nothing that is still held rests on what is
  -- released; and no array was accessed outside its bounds. If the set-up exits, then everything is
  -- released but the device when no protection domain could be allocated, and the result array
  -- when one of the two arrays after it could not.
  pub server_program-IsServed :
      (dev_name : List ℕ) (queue : d.Q) (rounds : ℕ)
      → d.outstanding queue ≡ []
      → IsServed env d (server_program env d dev_name queue rounds)
  unfolding server_program
  server_program-IsServed dev_name queue rounds empty =
      after_init-IsServed queue rounds (rdma_init_server env dev_name completion_queue_size) empty
        (rdma_init_server-IsSetUp env closes dev_name completion_queue_size)

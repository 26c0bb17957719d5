-- ===== src/RdmaClient/Program.antt =====
-- `main` of rdma_client.c from `rdma_init_client` to its return, and what holds when it ends.
use ibverb_prototype.Prelude.{ℕ, ◌%◌, ◌<◌, ◌≡◌, refl, true, ap, ◌∙◌, arith, some, List, [], ◌++◌}
use native.Mathlib.Nat.{le_refl}
use ibverb_prototype.Rdma.Request.{SendWr, send_linked}
use ibverb_prototype.Rdma.Post.Ring.{window, IsRing}
use ibverb_prototype.Rdma.Buffers.{ClientArrays, Target, client_arrays}
use ibverb_prototype.Rdma.Buffers.Client.{client_arrays-IsRing, client_arrays-HasSlots}
use ibverb_prototype.Rdma.Device.{Device, IsFifo}
use ibverb_prototype.Rdma.Setup.State.{
  Resource, result_array, send_array, Env, Rdma, Ending, returned, exited, log,
}
use ibverb_prototype.Rdma.Setup.Cleanup.{free, free_if, free_arrays, rdma_cleanup}
use ibverb_prototype.Rdma.Setup.Programs.{rdma_init_client}
use ibverb_prototype.Rdma.Setup.Held.{held}
use ibverb_prototype.Rdma.Setup.Attributes.{QpState}
use ibverb_prototype.Rdma.Setup.QueuePair.{IsIn, client_ready-IsIn}
use ibverb_prototype.Rdma.Setup.Tries.{closed, unregistered, rdma_cleanup-closed}
use ibverb_prototype.Rdma.Setup.Released.{IsReleased}
use ibverb_prototype.Rdma.Setup.ServerPaths.{IsSetUp}
use ibverb_prototype.Rdma.Setup.ClientPaths.{client_ready, client_target, rdma_init_client-IsSetUp}
use ibverb_prototype.RdmaClient.{
  client_queue_size, Client, ClientEnd, finished, failed, fault, Filling, after_fill, send,
  send_from,
}
use ibverb_prototype.RdmaClient.Fill.{HasSlots, IsFilled, fill_all-IsFilled}
use ibverb_prototype.RdmaClient.Order.{IsSent, post_sends-IsSent, send-IsSent}

module _ (env : Env) (d : Device SendWr) where
  -- The label `cleanup`. After a fault there is nothing to say.
  unfoldable pub clean_up_client : ClientEnd d → Rdma → Ending (ClientEnd d)
  unfolding rdma_cleanup free
  clean_up_client (finished t) s =
      rdma_cleanup env (free result_array s) (λ s. returned (finished t) s)
  clean_up_client (failed t) s = rdma_cleanup env (free result_array s) (λ s. returned (failed t) s)
  clean_up_client fault s = returned fault s

  unfoldable pub after_client_init : d.Q → ℕ → Ending ClientArrays → Ending (ClientEnd d)
  unfolding clean_up_client send_from
  after_client_init queue rounds (returned a s) =
      clean_up_client (send_from d client_queue_size a queue rounds) s
  after_client_init queue rounds (exited s) = exited s

  unfoldable pub client_program : List ℕ → ℕ → List ℕ → ℕ → d.Q → ℕ → Ending (ClientEnd d)
  unfolding after_client_init rdma_init_client
  client_program dev_name lid gid qpn queue rounds =
      after_client_init queue rounds (rdma_init_client env dev_name client_queue_size lid gid qpn)

  -- The two ways in which the program ends.
  unfoldable pub IsClientRun : Ending (ClientEnd d) → Type 0
  unfolding IsReleased
  IsClientRun (returned e s) =
      IsSent d client_queue_size e × (held s.trace ≡ some []) × IsIn s.calls QpState.rts
  IsClientRun (exited s) = IsReleased env send_array s

module _ (d : Device SendWr) (fifo : IsFifo (λ (r : SendWr). r.wr_id) d) where
  after_fill-IsSent :
      (n : ℕ) (a : ClientArrays) (queue : d.Q) (rounds : ℕ) (f : Filling) (pos : 0 < n)
      → HasSlots n a.buffers
      → IsRing n a.send_requests
      → d.outstanding queue ≡ []
      → IsFilled n 0 f
      → IsSent d n (after_fill d n a queue rounds (some f))
  unfolding after_fill
  after_fill-IsSent n a queue rounds f pos slots ring empty filled =
      post_sends-IsSent d fifo n pos 0 n loaded (λ s. send d rounds s) 0 pos pos (le_refl n)
        (record { queue_size = refl; has_slots = slots; ring = ring; filled = filled })
        (ap (λ l. l ++ window n 0 n) empty
          ∙ ap (λ h. window n h n) (let e : 0 ≡ 0 % n = omega arith in e))
        (λ s v. send-IsSent d fifo n pos rounds s 0 v)
    where
      loaded : Client d
      loaded = record {
        queue_size = n;
        buffers = a.buffers;
        requests = a.send_requests;
        queue = queue;
        filling = f;
      }

  -- On a device that keeps the order of its queue and starts with it empty, for any ring of n > 0 send
  -- requests, and any number of rounds: the client accesses no array or buffer outside its bounds.
  -- When the flag stops it, after `total` completions, all n requests are with the device, from
  -- request total % n on round the ring, and the slot of the j-th of them holds message
  -- total + j, every byte of it the low byte of this number. When a call or a completion fails, the
  -- slots still hold n consecutive messages in the order of the ring.
  pub send_from-IsSent :
      (n : ℕ) (t : Target) (queue : d.Q) (rounds : ℕ) (pos : 0 < n)
      → d.outstanding queue ≡ []
      → IsSent d n (send_from d n (client_arrays n t) queue rounds)
  unfolding send_from
  send_from-IsSent n t queue rounds pos empty =
      let (f, run, filled) =
        fill_all-IsFilled n pos (client_arrays n t).buffers (client_arrays-HasSlots n t) in
      rw (ap (λ o. after_fill d n (client_arrays n t) queue rounds o) run) (
        after_fill-IsSent n (client_arrays n t) queue rounds f pos (client_arrays-HasSlots n t)
          (client_arrays-IsRing n t) empty filled)

module _ (env : Env) (closes : (r : Resource) → env.releases r ≡ true) (d : Device SendWr)
    (fifo : IsFifo (λ (r : SendWr). r.wr_id) d) where
  clean_up_client-IsClientRun :
      (lid : ℕ) (gid : List ℕ) (e : ClientEnd d)
      → IsSent d client_queue_size e
      → IsClientRun env d (clean_up_client env d e (client_ready env client_queue_size lid gid))
  unfolding clean_up_client IsClientRun closed unregistered free free_if free_arrays log
  clean_up_client-IsClientRun lid gid (finished t) o =
      rw (rdma_cleanup-closed env closes) (o, refl, client_ready-IsIn env client_queue_size lid gid)
  clean_up_client-IsClientRun lid gid (failed t) o =
      rw (rdma_cleanup-closed env closes) (o, refl, client_ready-IsIn env client_queue_size lid gid)
  clean_up_client-IsClientRun lid gid fault o = absurd o

  after_client_init-IsClientRun :
      (lid : ℕ) (gid : List ℕ) (qpn : ℕ) (queue : d.Q) (rounds : ℕ) (e : Ending ClientArrays)
      → d.outstanding queue ≡ []
      → IsSetUp env send_array
          (client_arrays client_queue_size (client_target env qpn))
          (client_ready env client_queue_size lid gid)
          e
      → IsClientRun env d (after_client_init env d queue rounds e)
  unfolding after_client_init IsClientRun IsSetUp
  after_client_init-IsClientRun lid gid qpn queue rounds (returned a s) empty (arrays, statics) =
      rw (arrays, statics)
        (clean_up_client-IsClientRun lid gid
          (send_from d client_queue_size (client_arrays client_queue_size (client_target env qpn))
            queue rounds)
          (send_from-IsSent d fifo client_queue_size (client_target env qpn) queue rounds
            (omega arith) empty))
  after_client_init-IsClientRun lid gid qpn queue rounds (exited s) empty left = left

  -- The whole client, on a device that keeps the order of its queue and starts with it empty, and with
  -- libraries whose releases succeed, whatever their other calls answer and for any number of rounds. If it
  -- returns, with success or failure, then no array or buffer was accessed outside its bounds; the slots
  -- of the buffer hold 20 consecutive messages in the order of the ring, which on success are those
  -- of the 20 requests that are with the device; the queue pair was ready to send, by legal changes of its
  -- state; and everything that was acquired is released, in an
  -- order in which nothing that is still held rests on what is released. If the set-up exits, then
  -- everything is released but the device when no protection domain could be allocated, and the
  -- result array when one of the two arrays after it could not.
  pub client_program-IsClientRun :
      (dev_name : List ℕ) (lid : ℕ) (gid : List ℕ) (qpn : ℕ) (queue : d.Q) (rounds : ℕ)
      → d.outstanding queue ≡ []
      → IsClientRun env d (client_program env d dev_name lid gid qpn queue rounds)
  unfolding client_program
  client_program-IsClientRun dev_name lid gid qpn queue rounds empty =
      after_client_init-IsClientRun lid gid qpn queue rounds
        (rdma_init_client env dev_name client_queue_size lid gid qpn) empty
        (rdma_init_client-IsSetUp env closes dev_name client_queue_size lid gid qpn)

-- ===== src/RdmaClient.antt =====
-- rdma_client.c, from the end of `rdma_init_client` up to the clean-up: the send buffers are
-- filled, posted, polled for, filled anew and posted again.
pub mod Fill
pub mod Refill
pub mod Order
pub mod Live
pub mod Program
pub mod Command
mod Tests
use ibverb_prototype.Prelude.{
  ℕ, zero, suc, ◌+◌, ◌*◌, ◌%◌, ◌^◌, leb, ltb, Bool, true, false, ◌&&◌, if◌then◌else◌, Option, none,
  some, ◌>>=◌, List, [], ◌∷◌, length, get_elem?,
}
use ibverb_prototype.Packet.{msg_size}
use ibverb_prototype.Rdma.Request.{SendWr, send_linked}
use ibverb_prototype.Rdma.Post.{post}
use ibverb_prototype.Rdma.Buffers.{SendBuffer, ClientArrays, Target, client_arrays}
use ibverb_prototype.Rdma.Device.{Wc, Poll, poll_failed, polled, Device}

-- `completion_queue_size` of `main`.
abbrev pub client_queue_size : ℕ
client_queue_size = 20

-- The data buffer: its size, and its bytes by their offset.
pub record Memory : Type 0 where
  pub size : ℕ
  pub byte : ℕ → ℕ

-- `memset`, whose value is converted to an `unsigned char`. `none` is a write out of the buffer.
unfoldable pub memset : ℕ → ℕ → ℕ → Memory → Option Memory
memset offset value n m =
    if leb (offset + n) m.size
    then some (record m {
      byte = λ x. if leb offset x && ltb x (offset + n) then value % 2 ^ 8 else m.byte x;
    })
    else none

-- `allocate_buf` leaves the buffer filled with zeros.
unfoldable pub data_memory : ℕ → Memory
data_memory n = record { size = n * msg_size; byte = λ x. 0 }

-- What the filling works on. `count` is an `int`, of which the program only uses the low byte; that it
-- overflows after 2 ^ 31 messages is left out.
pub record Filling : Type 0 where
  pub memory : Memory
  pub count : ℕ

-- `memset(buffers[i].data_buffer, count++, MSG_SIZE)`.
unfoldable pub fill_slot : List SendBuffer → ℕ → Filling → Option Filling
unfolding memset
fill_slot buffers i f = get_elem? buffers i >>= λ (b : SendBuffer).
    memset b.data_buffer f.count msg_size f.memory >>= λ m.
    some (record { memory = m; count = f.count + 1 })

-- The loop that fills every buffer, with `left` rounds left from index i on.
unfoldable pub fill_all : List SendBuffer → ℕ → ℕ → Filling → Option Filling
unfolding fill_slot
fill_all buffers zero i f = some f
fill_all buffers (suc left) i f = fill_slot buffers i f >>= λ f'. fill_all buffers left (i + 1) f'

-- What the loop over the completions comes to: whether all have succeeded, and the buffer then.
pub data Refilled : Type 0 where
  refilled : Bool → Filling → Refilled
  outside : Refilled

-- The body of that loop: `success` is the test of the status, `filled` what `memset` leaves.
unfoldable pub refill_next : Bool → Filling → Option Filling → (Filling → Refilled) → Refilled
refill_next false f filled continue = refilled false f
refill_next true f none continue = outside
refill_next true f (some f') continue = continue f'

unfoldable pub refill : List SendBuffer → List Wc → Filling → Refilled
unfolding refill_next fill_slot
refill buffers [] f = refilled true f
refill buffers (wc ∷ wcs) f =
    refill_next wc.success f (fill_slot buffers wc.wr_id f) (λ f'. refill buffers wcs f')

module _ (d : Device SendWr) where
  pub record Client : Type 0 where
    pub queue_size : ℕ
    pub buffers : List SendBuffer
    pub requests : List SendWr
    pub queue : d.Q
    pub filling : Filling

  -- How `main` comes to its clean-up, as for the server.
  pub data ClientEnd : Type 0 where
    finished : Client → ClientEnd
    failed : Client → ClientEnd
    fault : ClientEnd

  -- What follows a call of `post_sends`: the clean-up if it failed.
  unfoldable pub after_post_sends :
      Client → (Client → ClientEnd) → Option (Bool × List SendWr × d.Q) → ClientEnd
  after_post_sends s continue none = fault
  after_post_sends s continue (some (true, requests, queue)) =
      continue (record s { requests = requests; queue = queue })
  after_post_sends s continue (some (false, requests, queue)) =
      failed (record s { requests = requests; queue = queue })

  unfoldable pub post_sends : ℕ → ℕ → Client → (Client → ClientEnd) → ClientEnd
  unfolding after_post_sends
  post_sends start count s continue =
      after_post_sends s continue (post d.ibv_post s.queue_size start count s.requests s.queue)

  -- The loop's body after the completions are handled: they are posted again, from the first.
  unfoldable pub resend : List Wc → Client → (Client → ClientEnd) → ClientEnd
  unfolding post_sends
  resend [] s continue = continue s
  resend (wc ∷ wcs) s continue = post_sends wc.wr_id (length (wc ∷ wcs)) s continue

  unfoldable pub after_refill : List Wc → Client → (Client → ClientEnd) → Refilled → ClientEnd
  unfolding resend
  after_refill wcs s continue outside = fault
  after_refill wcs s continue (refilled good f) =
      let s' = record s { filling = f } in if good then resend wcs s' continue else failed s'

  unfoldable pub after_send_poll : Client → (Client → ClientEnd) → Poll × d.Q → ClientEnd
  unfolding after_refill refill
  after_send_poll s continue (poll_failed, queue) = failed (record s { queue = queue })
  after_send_poll s continue (polled wcs, queue) =
      after_refill wcs (record s { queue = queue }) continue (refill s.buffers wcs s.filling)

  -- `while (client_loop)`; the number is how often the test finds the flag set.
  unfoldable pub send : ℕ → Client → ClientEnd
  unfolding after_send_poll
  send zero s = finished s
  send (suc rounds) s = after_send_poll s (λ s'. send rounds s') (d.ibv_poll_cq 10 s.queue)

  -- After the first filling: the posting of all requests, and the loop.
  unfoldable pub after_fill : ℕ → ClientArrays → d.Q → ℕ → Option Filling → ClientEnd
  unfolding send
  after_fill n a queue rounds none = fault
  after_fill n a queue rounds (some f) =
      let s : Client = record {
        queue_size = n;
        buffers = a.buffers;
        requests = a.send_requests;
        queue = queue;
        filling = f;
      } in
      post_sends 0 n s (λ s'. send rounds s')

  -- `main` after `rdma_init_client` has returned, for a queue of n requests.
  unfoldable pub send_from : ℕ → ClientArrays → d.Q → ℕ → ClientEnd
  unfolding after_fill fill_all
  send_from n a queue rounds =
      after_fill n a queue rounds
        (fill_all a.buffers n 0 (record { memory = data_memory n; count = 0 }))

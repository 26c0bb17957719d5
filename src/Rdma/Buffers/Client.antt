-- ===== src/Rdma/Buffers/Client.antt =====
-- The client's arrays.
use ibverb_prototype.Prelude.{
  ℕ, zero, suc, ◌+◌, ◌*◌, ◌≤◌, ◌<◌, ◌≡◌, refl, ap, arith, some, length, get_elem?,
}
use ibverb_prototype.Packet.{msg_size}
use ibverb_prototype.Rdma.Request.{send_linked}
use ibverb_prototype.Rdma.Buffers.{
  ring_next, Target, ClientArrays, client_entry, client_fill, client_arrays, wr_send, SendBuffer,
}
use ibverb_prototype.Rdma.Buffers.Layout.{ring_next-mod}
use ibverb_prototype.Rdma.Post.Ring.{IsRing}

-- At index j the client's arrays hold the entries of request k.
pub record IsClientEntry (n : ℕ) (t : Target) (j k : ℕ) (a : ClientArrays) : Type 0 where
  pub buffer : get_elem? a.buffers j ≡ some (record { data_buffer = k * msg_size })
  pub sge :
      get_elem? a.scatter_gather j
      ≡ some (record { addr = k * msg_size; size = msg_size; lkey = t.data_key })
  pub request :
      get_elem? a.send_requests j
      ≡ some (record {
        wr_id = k;
        next = ring_next n k;
        sg_list = k;
        num_sge = 1;
        opcode = wr_send;
        send_flags = t.flags;
        ah = t.ah;
        remote_qpn = t.qpn;
        remote_qkey = 0x11111111;
      })

module _ (n : ℕ) (t : Target) where
  client_fill-IsClientEntry :
      (left i j k : ℕ) → j < left → k ≡ i + j → IsClientEntry n t j k (client_fill n t left i)
  unfolding client_fill client_entry
  client_fill-IsClientEntry zero i j k h e = absurd (omega arith)
  client_fill-IsClientEntry (suc left) i zero k h e =
      let here : k ≡ i = omega arith in
      rw here (record { buffer = refl; sge = refl; request = refl })
  client_fill-IsClientEntry (suc left) i (suc j) k h e =
      let later = client_fill-IsClientEntry left (i + 1) j k (omega arith) (omega arith) in
      record { buffer = later.buffer; sge = later.sge; request = later.request }

  length-requests : (left i : ℕ) → length (client_fill n t left i).send_requests ≡ left
  unfolding client_fill client_entry
  length-requests zero i = refl
  length-requests (suc left) i = ap suc (length-requests left (i + 1))

  -- The send requests of the client form a ring of n.
  pub client_arrays-IsRing : IsRing n (client_arrays n t).send_requests
  unfolding client_arrays
  client_arrays-IsRing = record {
    size = length-requests n 0;
    entry = λ i h. (
      record {
        wr_id = i;
        next = ring_next n i;
        sg_list = i;
        num_sge = 1;
        opcode = wr_send;
        send_flags = t.flags;
        ah = t.ah;
        remote_qpn = t.qpn;
        remote_qkey = 0x11111111;
      },
      (client_fill-IsClientEntry n 0 i i h (omega arith)).request,
      refl,
      ring_next-mod n i h,
    );
  }

  -- Request i of the client, one of n, sends piece i of the data buffer of n messages, which is the
  -- piece that `result[i]` points to, to the server's queue pair. The pieces lie inside the
  -- buffer, and end before those of any later request begin.
  pub client_arrays-layout :
      (i j : ℕ)
      → i < j
      → j < n
      → IsClientEntry n t i i (client_arrays n t)
        × (i * msg_size + msg_size ≤ j * msg_size)
        × (j * msg_size + msg_size ≤ n * msg_size)
  unfolding client_arrays
  client_arrays-layout i j before inside =
      (client_fill-IsClientEntry n 0 i i (omega arith) (omega arith), omega arith, omega arith)

  -- The entry of each of the n results points to its piece of the data buffer.
  pub client_arrays-HasSlots :
      (i : ℕ)
      → i < n
      → (b : SendBuffer) × (get_elem? (client_arrays n t).buffers i ≡ some b)
        × (b.data_buffer ≡ i * msg_size)
  unfolding client_arrays
  client_arrays-HasSlots i h = (
    record { data_buffer = i * msg_size },
    (client_fill-IsClientEntry n 0 i i h (omega arith)).buffer,
    refl,
  )

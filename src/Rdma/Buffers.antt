-- ===== src/Rdma/Buffers.antt =====
-- The loops at the end of `rdma_init_server` and `rdma_init_client`: they divide the registered
-- buffers into one entry per request, and chain the requests into a ring. A pointer into a buffer
-- is the offset into it.
pub mod Layout
pub mod Client
use ibverb_prototype.Prelude.{
  ℕ, zero, suc, ◌+◌, ◌-◌, ◌*◌, ◌==◌, if◌then◌else◌, Option, some, List, [], ◌∷◌, length, get_elem?,
}
use ibverb_prototype.Packet.{msg_size}
use ibverb_prototype.Rdma.Request.{Sge, RecvWr, SendWr}

-- `struct recv_buffer` and `struct send_buffer`.
pub record RecvBuffer : Type 0 where
  pub header_buffer : ℕ
  pub data_buffer : ℕ

pub record SendBuffer : Type 0 where
  pub data_buffer : ℕ

-- The size of `struct ib_grh`, by which `&header_buffers[i]` steps.
abbrev pub grh_size : ℕ
grh_size = 40

-- The pointer to the next request of a ring of n.
unfoldable pub ring_next : ℕ → ℕ → Option ℕ
ring_next n i = if i == n - 1 then some 0 else some (i + 1)

pub record ServerArrays : Type 0 where
  pub buffers : List RecvBuffer
  pub scatter_gather : List Sge
  pub recv_requests : List RecvWr

-- One round of the server's loop, before the rounds after it.
unfoldable pub server_entry : ℕ → ℕ → ℕ → ℕ → ServerArrays → ServerArrays
unfolding ring_next
server_entry n header_key data_key i later = record {
  buffers = record { header_buffer = i * grh_size; data_buffer = i * msg_size } ∷ later.buffers;
  scatter_gather =
      record { addr = i * grh_size; size = 40; lkey = header_key }
      ∷ record { addr = i * msg_size; size = msg_size; lkey = data_key }
      ∷ later.scatter_gather;
  recv_requests =
      record { wr_id = i; next = ring_next n i; sg_list = 2 * i; num_sge = 2 }
      ∷ later.recv_requests;
}

-- The server's loop with `left` rounds left: what it writes into the arrays from index i on.
unfoldable pub server_fill : ℕ → ℕ → ℕ → ℕ → ℕ → ServerArrays
unfolding server_entry
server_fill n header_key data_key zero i = record {
  buffers = [];
  scatter_gather = [];
  recv_requests = [];
}
server_fill n header_key data_key (suc left) i =
    server_entry n header_key data_key i (server_fill n header_key data_key left (i + 1))

-- The arrays of `rdma_init_server` for a queue of n completions.
unfoldable pub server_arrays : ℕ → ℕ → ℕ → ServerArrays
unfolding server_fill
server_arrays n header_key data_key = server_fill n header_key data_key n 0

pub record ClientArrays : Type 0 where
  pub buffers : List SendBuffer
  pub scatter_gather : List Sge
  pub send_requests : List SendWr

-- What the client's requests share: the key of the buffer's region, the flags, the address handle
-- and the queue pair of the server.
pub record Target : Type 0 where
  pub data_key : ℕ
  pub flags : ℕ
  pub ah : ℕ
  pub qpn : ℕ

-- `IBV_WR_SEND`.
abbrev pub wr_send : ℕ
wr_send = 2

-- One round of the client's loop.
unfoldable pub client_entry : ℕ → Target → ℕ → ClientArrays → ClientArrays
unfolding ring_next
client_entry n t i later = record {
  buffers = record { data_buffer = i * msg_size } ∷ later.buffers;
  scatter_gather =
      record { addr = i * msg_size; size = msg_size; lkey = t.data_key } ∷ later.scatter_gather;
  send_requests =
      record {
        wr_id = i;
        next = ring_next n i;
        sg_list = i;
        num_sge = 1;
        opcode = wr_send;
        send_flags = t.flags;
        ah = t.ah;
        remote_qpn = t.qpn;
        remote_qkey = 0x11111111;
      }
      ∷ later.send_requests;
}

unfoldable pub client_fill : ℕ → Target → ℕ → ℕ → ClientArrays
unfolding client_entry
client_fill n t zero i = record { buffers = []; scatter_gather = []; send_requests = [] }
client_fill n t (suc left) i = client_entry n t i (client_fill n t left (i + 1))

-- The arrays of `rdma_init_client`.
unfoldable pub client_arrays : ℕ → Target → ClientArrays
unfolding client_fill
client_arrays n t = client_fill n t n 0

-- ===== src/Rdma/Setup/ClientPaths.antt =====
-- `rdma_init_client`, on every path.
use ibverb_prototype.Prelude.{ℕ, ◌*◌, bits, ◌≡◌, refl, inl, inr, Bool-cases, true, List, ◌∷◌}
use ibverb_prototype.Rdma.Buffers.{Target, client_arrays}
use ibverb_prototype.Rdma.Setup.State.{
  Resource, result_array, sge_array, send_array, ah_handle, modify_rts, Env, acquired, Rdma, log,
  try_acquire, try_create, try_modify,
}
use ibverb_prototype.Packet.{msg_size}
use ibverb_prototype.Rdma.Setup.Attributes.{ib_port, QpState, QpAttr, AhAttr, VerbsCall, rts_mask}
use ibverb_prototype.Rdma.Setup.Cleanup.{free, free_if, free_arrays}
use ibverb_prototype.Rdma.Setup.Init.{data_region, allocate_buf}
use ibverb_prototype.Rdma.Setup.Programs.{
  rdma_init_client, make_client_arrays, connect_client, target, give_up, give_up_early,
  give_up_freeing,
}
use ibverb_prototype.Rdma.Setup.Tries.{closed, unregistered, rdma_cleanup-closed}
use ibverb_prototype.Rdma.Setup.Released.{IsReleased, flags_of, rdma_init_branches}
use ibverb_prototype.Rdma.Setup.ServerPaths.{IsSetUp, with_data, data_buffer_branches}

-- The static variables after the arrays are there, and when the client is set up.
abbrev with_arrays : Env → ℕ → Rdma
with_arrays env n = record (with_data env n) {
  scatter_gather = true;
  send_requests = true;
  trace =
      acquired send_array ∷ acquired sge_array ∷ acquired result_array ∷ (with_data env n).trace;
}

abbrev pub rts_attr : Env → QpAttr
rts_attr env = record env.stack_attr { qp_state = QpState.rts; sq_psn = 0 }

abbrev pub server_address : ℕ → List ℕ → AhAttr
server_address lid gid = record {
  dlid = bits 16 lid;
  sl = 0;
  src_path_bits = 0;
  static_rate = 0;
  is_global = 1;
  port_num = ib_port;
  dgid = gid;
  flow_label = 0;
  sgid_index = 0;
  hop_limit = 1;
  traffic_class = 0;
}

abbrev pub client_ready : Env → ℕ → ℕ → List ℕ → Rdma
client_ready env n lid gid = record (with_arrays env n) {
  ah = true;
  trace = acquired ah_handle ∷ (with_arrays env n).trace;
  calls =
      VerbsCall.create_ah (server_address lid gid)
      ∷ VerbsCall.modify_qp (rts_attr env) rts_mask
      ∷ (with_arrays env n).calls;
}

-- What the requests of the client share: the flag to inline a message is set if the queue pair takes
-- as many inline bytes as a message may have.
abbrev pub client_target : Env → ℕ → Target
client_target env qpn = record {
  data_key = env.data_key;
  flags = flags_of env;
  ah = env.ah_number;
  qpn = qpn;
}

module _ (env : Env) (closes : (r : Resource) → env.releases r ≡ true) where
  connect_client_branches :
      (n lid : ℕ) (gid : List ℕ) (qpn : ℕ)
      → IsSetUp env send_array
          (client_arrays n (client_target env qpn))
          (client_ready env n lid gid)
          (connect_client env n lid gid qpn (with_arrays env n))
  unfolding connect_client target try_modify try_create give_up_freeing give_up IsSetUp IsReleased
      closed unregistered free free_if free_arrays log
  connect_client_branches n lid gid qpn = elim (Bool-cases (env.answers modify_rts)) [
    | inr bad ↦ rw (bad, rdma_cleanup-closed env closes) (inl refl)
    | inl ok ↦ elim (Bool-cases (env.acquires ah_handle)) [
      | inr bad ↦ rw (ok, bad, rdma_cleanup-closed env closes) (inl refl)
      | inl ok₁ ↦ rw (ok, ok₁) (refl, refl)
    ]
  ]

  make_client_arrays_branches :
      (n lid : ℕ) (gid : List ℕ) (qpn : ℕ)
      → IsSetUp env send_array
          (client_arrays n (client_target env qpn))
          (client_ready env n lid gid)
          (make_client_arrays env n lid gid qpn (with_data env n))
  unfolding make_client_arrays try_acquire give_up IsSetUp IsReleased closed unregistered free
      free_if free_arrays log
  make_client_arrays_branches n lid gid qpn = elim (Bool-cases (env.acquires result_array)) [
    | inr bad ↦ rw (bad, rdma_cleanup-closed env closes) (inl refl)
    | inl ok ↦ elim (Bool-cases (env.acquires sge_array)) [
      | inr bad ↦ rw (ok, bad, rdma_cleanup-closed env closes) (inr (inr (rw (bad) refl, refl)))
      | inl ok₁ ↦ elim (Bool-cases (env.acquires send_array)) [
        | inr bad ↦
            rw (ok, ok₁, bad, rdma_cleanup-closed env closes) (inr (inr (rw (ok₁, bad) refl, refl)))
        | inl ok₂ ↦ rw (ok, ok₁, ok₂) (connect_client_branches n lid gid qpn)
      ]
    ]
  ]

  -- If every release succeeds, then for every answer of the other calls `rdma_init_client` ends in one
  -- of two ways. It returns the arrays of the ring, all requests addressed to the given queue pair by
  -- the address handle that it made, and inlined exactly if a message of the largest size may be, with
  -- every resource acquired. Or it exits with every resource released again, but for the device when no
  -- protection domain could be allocated, and for the result array when one of the two arrays after it
  -- could not. What is released was held, and nothing that was still held rested on it.
  pub rdma_init_client-IsSetUp :
      (dev_name : List ℕ) (n lid : ℕ) (gid : List ℕ) (qpn : ℕ)
      → IsSetUp env send_array
          (client_arrays n (client_target env qpn))
          (client_ready env n lid gid)
          (rdma_init_client env dev_name n lid gid qpn)
  unfolding rdma_init_client IsSetUp
  rdma_init_client-IsSetUp dev_name n lid gid qpn =
      rdma_init_branches
        (IsSetUp env send_array (client_arrays n (client_target env qpn))
          (client_ready env n lid gid))
        env send_array closes (λ s left. left) dev_name n
        (λ s.
          allocate_buf env data_region (n * msg_size) s (give_up_early env)
            (λ s. make_client_arrays env n lid gid qpn s))
        (data_buffer_branches env closes send_array (client_arrays n (client_target env qpn))
          (client_ready env n lid gid) n (λ s. make_client_arrays env n lid gid qpn s)
          (make_client_arrays_branches n lid gid qpn))

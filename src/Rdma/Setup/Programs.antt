-- ===== src/Rdma/Setup/Programs.antt =====
-- `rdma_init_server` and `rdma_init_client`.
use ibverb_prototype.Prelude.{ℕ, ◌*◌, bits, true, List}
use ibverb_prototype.Packet.{msg_size}
use ibverb_prototype.Rdma.Setup.Attributes.{ib_port, QpState, QpAttr, AhAttr, VerbsCall, rts_mask}
use ibverb_prototype.Rdma.Buffers.{ServerArrays, server_arrays, ClientArrays, Target, client_arrays}
use ibverb_prototype.Rdma.Setup.State.{
  result_array, sge_array, recv_array, send_array, ah_handle, query_gid, query_port_again,
  print_gid, modify_rts, Env, Rdma, Ending, exited, returned, start, try_acquire, try_query,
  try_create, try_modify,
}
use ibverb_prototype.Rdma.Setup.Cleanup.{free, rdma_cleanup, internal_rdma_cleanup}
use ibverb_prototype.Rdma.Setup.Init.{data_region, header_region, allocate_buf, rdma_init}

-- The error exits: after `internal_rdma_cleanup`, after `rdma_cleanup`, and after `free(result)` and
-- `rdma_cleanup`.
unfoldable pub give_up_early {ℓ} : {A : Type ℓ} → Env → Rdma → Ending A
unfolding internal_rdma_cleanup
give_up_early env s = internal_rdma_cleanup env s (λ s. exited s)

unfoldable pub give_up {ℓ} : {A : Type ℓ} → Env → Rdma → Ending A
unfolding rdma_cleanup
give_up env s = rdma_cleanup env s (λ s. exited s)

unfoldable pub give_up_freeing {ℓ} : {A : Type ℓ} → Env → Rdma → Ending A
unfolding give_up free
give_up_freeing env s = give_up env (free result_array s)

module _ (env : Env) where
  -- The queries at the end, whose results are printed, and the return.
  unfoldable pub report_server : ServerArrays → Rdma → Ending ServerArrays
  unfolding try_query give_up_freeing
  report_server a s = try_query env query_gid s (give_up_freeing env) (λ s.
      try_query env query_port_again s (give_up_freeing env)
        (λ s. try_query env print_gid s (give_up_freeing env) (λ s. returned a s)))

  -- From the allocation of the arrays on.
  unfoldable pub make_server_arrays : ℕ → Rdma → Ending ServerArrays
  unfolding try_acquire give_up report_server
  make_server_arrays completion_queue_size s = try_acquire env result_array s (give_up env) (λ s.
      try_acquire env sge_array s (give_up env) (λ s.
        try_acquire env recv_array (record s { scatter_gather = true }) (give_up env)
          (λ s.
            report_server (server_arrays completion_queue_size env.header_key env.data_key)
              (record s { recv_requests = true }))))

  unfoldable pub rdma_init_server : List ℕ → ℕ → Ending ServerArrays
  unfolding allocate_buf rdma_init give_up_early give_up make_server_arrays
  rdma_init_server dev_name completion_queue_size =
      rdma_init env dev_name completion_queue_size start (λ s.
        allocate_buf env data_region (completion_queue_size * msg_size) s (give_up_early env) (λ s.
          allocate_buf env header_region (completion_queue_size * 40) s (give_up env)
            (λ s. make_server_arrays completion_queue_size s)))

  -- What the requests of the client share.
  unfoldable pub target : ℕ → Rdma → Target
  target qpn s = record {
    data_key = env.data_key;
    flags = s.send_flags;
    ah = env.ah_number;
    qpn = qpn;
  }

  -- From the transition to RTS on. `dlid` has 16 bits.
  unfoldable pub connect_client : ℕ → ℕ → List ℕ → ℕ → Rdma → Ending ClientArrays
  unfolding try_create try_modify give_up_freeing target
  connect_client completion_queue_size lid gid qpn s =
      let attr : QpAttr = record env.stack_attr { qp_state = QpState.rts; sq_psn = 0 } in
      let ah_attr : AhAttr = record {
        dlid = bits 16 lid;
        sl = 0;
        src_path_bits = 0;
        static_rate = 0;
        is_global = 1;
        port_num = ib_port;
        dgid = gid;
        flow_label = 0;
        sgid_index = 0;
        hop_limit = 1;
        traffic_class = 0;
      } in
      try_modify env modify_rts (VerbsCall.modify_qp attr rts_mask) s (give_up_freeing env) (λ s.
        try_create env ah_handle (VerbsCall.create_ah ah_attr) s (give_up_freeing env) (λ s.
          returned (client_arrays completion_queue_size (target qpn s)) (record s { ah = true })))

  unfoldable pub make_client_arrays : ℕ → ℕ → List ℕ → ℕ → Rdma → Ending ClientArrays
  unfolding try_acquire give_up connect_client
  make_client_arrays completion_queue_size lid gid qpn s =
      try_acquire env result_array s (give_up env) (λ s.
        try_acquire env sge_array s (give_up env) (λ s.
          try_acquire env send_array (record s { scatter_gather = true }) (give_up env)
            (λ s.
              connect_client completion_queue_size lid gid qpn
                (record s { send_requests = true }))))

  unfoldable pub rdma_init_client : List ℕ → ℕ → ℕ → List ℕ → ℕ → Ending ClientArrays
  unfolding allocate_buf rdma_init give_up_early make_client_arrays
  rdma_init_client dev_name completion_queue_size lid gid qpn =
      rdma_init env dev_name completion_queue_size start (λ s.
        allocate_buf env data_region (completion_queue_size * msg_size) s (give_up_early env)
          (λ s. make_client_arrays completion_queue_size lid gid qpn s))

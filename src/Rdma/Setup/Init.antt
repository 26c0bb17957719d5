-- ===== src/Rdma/Setup/Init.antt =====
-- `rdma_init` and `allocate_buf`.
use ibverb_prototype.Prelude.{
  ℕ, ◌+◌, ◌^◌, leb, bit_or, Bool, true, false, if◌then◌else◌, Option, none, some, List, [], ◌∷◌,
}
use ibverb_prototype.Text.{same_name}
use ibverb_prototype.Rdma.Setup.State.{
  Resource, device_list, device_context, pd, cq, qp, data_mem, data_mr, header_mem, header_mr,
  query_port, modify_init, modify_rtr, Env, Rdma, Ending, exited, try_acquire, try_query,
  try_create, try_modify, release, send_inline, released, log,
}
use ibverb_prototype.Rdma.Setup.Attributes.{
  ib_port, shared_queue_key, QpState, QpAttr, QpInit, VerbsCall, init_mask, rtr_mask, qpt_ud,
  access_local_write,
}
use ibverb_prototype.Rdma.Setup.Cleanup.{free}

-- The search for the device with the given name.
unfoldable pub find_device : List ℕ → List (List ℕ) → Option (List ℕ)
unfolding same_name
find_device name [] = none
find_device name (d ∷ ds) =
    let rest = find_device name ds in if same_name d name then some d else rest

-- The two buffers that `allocate_buf` is called for.
pub data Region : Type 0 where
  data_region : Region
  header_region : Region

unfoldable pub memory_of : Region → Resource
memory_of data_region = data_mem
memory_of header_region = header_mem

unfoldable pub registration_of : Region → Resource
registration_of data_region = data_mr
registration_of header_region = header_mr

-- The assignments to `*buf` and `*mr`.
unfoldable pub set_buffer : Region → Bool → Rdma → Rdma
set_buffer data_region p s = record s { buffer = p }
set_buffer header_region p s = record s { header_buffer = p }

unfoldable pub set_mr : Region → Bool → Rdma → Rdma
set_mr data_region p s = record s { memory_region = p }
set_mr header_region p s = record s { header_memory_region = p }

module _ {ℓ} {A : Type ℓ} (env : Env) where
  -- The memory is cleared. `fail` and `done` are what the caller does when the result is 1 and when it is 0.
  unfoldable pub allocate_buf : Region → ℕ → Rdma → (Rdma → Ending A) → (Rdma → Ending A) → Ending A
  unfolding memory_of registration_of set_buffer set_mr try_acquire try_create free
  allocate_buf r size s fail done = try_acquire env (memory_of r) s fail (λ s.
      try_create env (registration_of r) (VerbsCall.register_memory size access_local_write)
        (set_buffer r true s)
        (λ s. fail (set_buffer r false (free (memory_of r) (set_mr r false s))))
        (λ s. done (set_mr r true s)))

  -- The labels at the end of `rdma_init`.
  unfoldable pub clean_context : Rdma → Ending A
  clean_context s = exited s

  unfoldable pub clean_device : Rdma → Ending A
  unfolding clean_context release
  clean_device s = clean_context (release env device_context s)

  unfoldable pub clean_protection_domain : Rdma → Ending A
  unfolding clean_device release
  clean_protection_domain s = clean_device (release env pd s)

  unfoldable pub clean_completion_queue : Rdma → Ending A
  unfolding clean_protection_domain release
  clean_completion_queue s = clean_protection_domain (release env cq s)

  unfoldable pub clean_queue_pair : Rdma → Ending A
  unfolding clean_completion_queue release
  clean_queue_pair s = clean_completion_queue (release env qp s)

  -- From `ibv_query_qp` on: the inlining of small messages, and the two transitions of the queue pair.
  unfoldable pub ready_queue_pair : Rdma → (Rdma → Ending A) → Ending A
  unfolding clean_queue_pair try_modify
  ready_queue_pair s continue =
      let flags =
        if leb s.max_mtu env.max_inline_data
        then bit_or s.send_flags send_inline
        else s.send_flags in
      let s' = record s { send_flags = flags } in
      let initial : QpAttr = record env.queried_attr {
        qp_state = QpState.init;
        pkey_index = 0;
        port_num = ib_port;
        qkey = shared_queue_key;
      } in
      let ready : QpAttr = record initial { qp_state = QpState.rtr } in
      try_modify env modify_init (VerbsCall.modify_qp initial init_mask) s' clean_queue_pair (λ s.
        try_modify env modify_rtr (VerbsCall.modify_qp ready rtr_mask) s clean_queue_pair continue)

  -- From `ibv_alloc_pd` on.
  unfoldable pub make_queues : ℕ → Rdma → (Rdma → Ending A) → Ending A
  unfolding clean_context clean_protection_domain clean_completion_queue try_acquire try_create
      ready_queue_pair
  make_queues n s continue =
      let attr : QpInit = record {
        max_send_wr = n;
        max_recv_wr = n;
        max_send_sge = 1;
        max_recv_sge = 2;
        qp_type = qpt_ud;
      } in
      try_acquire env pd s clean_context (λ s.
        try_create env cq (VerbsCall.create_cq n) s clean_protection_domain (λ s.
          try_create env qp (VerbsCall.create_qp attr) s clean_completion_queue
            (λ s. ready_queue_pair s continue)))

  -- From `ibv_open_device` on. The list is freed before the result is looked at. `active_mtu` is one of
  -- the five values of its enumeration, and the shift stays below 2 ^ 13.
  unfoldable pub open_device : ℕ → Rdma → (Rdma → Ending A) → Ending A
  unfolding clean_context clean_device try_acquire try_query make_queues log
  open_device n s continue =
      try_acquire env device_context s (λ s. clean_context (log (released device_list) s))
        (λ s.
          try_query env query_port (log (released device_list) s) clean_device
            (λ s. make_queues n (record s { max_mtu = 2 ^ (env.active_mtu + 7) }) continue))

  unfoldable pub after_find : Option (List ℕ) → ℕ → Rdma → (Rdma → Ending A) → Ending A
  unfolding open_device log
  after_find none n s continue = exited (log (released device_list) s)
  after_find (some ib_dev) n s continue = open_device n s continue

  unfoldable pub rdma_init : List ℕ → ℕ → Rdma → (Rdma → Ending A) → Ending A
  unfolding try_acquire after_find find_device
  rdma_init dev_name completion_queue_size s continue =
      try_acquire env device_list (record s { queue_size = completion_queue_size }) (λ s. exited s)
        (λ s. after_find (find_device dev_name env.devices) completion_queue_size s continue)

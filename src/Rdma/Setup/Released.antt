-- ===== src/Rdma/Setup/Released.antt =====
-- On every path of the set-up, what is still held when it ends.
use ibverb_prototype.Prelude.{
  ℕ, ◌+◌, ◌^◌, leb, bit_or, ◌≡◌, refl, ◌⊎◌, inl, inr, Bool-cases, true, false, ◌&&◌, if◌then◌else◌,
  Option, none, some, List, [], ◌∷◌,
}
use ibverb_prototype.Rdma.Setup.State.{
  Resource, device_list, device_context, pd, cq, qp, result_array, sge_array, Env, acquired,
  released, Rdma, Ending, exited, start, log, try_acquire, try_query, try_create, try_modify,
  query_port, modify_init, modify_rtr, send_inline, send_signaled,
}
use ibverb_prototype.Rdma.Setup.Attributes.{
  ib_port, shared_queue_key, QpState, QpAttr, QpInit, VerbsCall, init_mask, rtr_mask, qpt_ud,
}
use ibverb_prototype.Rdma.Setup.Init.{
  find_device, after_find, open_device, make_queues, ready_queue_pair, rdma_init, clean_context,
}
use ibverb_prototype.Rdma.Setup.Held.{held}
use ibverb_prototype.Rdma.Setup.Tries

-- What may be held when the process ends: nothing, or the device, if no protection domain could be
-- allocated, or the result array, if
-- one of the two arrays after it could not; the second of them holds the requests.
unfoldable pub IsReleased : Env → Resource → Rdma → Type 0
IsReleased env requests s =
    (held s.trace ≡ some [])
    ⊎ ((env.acquires pd ≡ false) × (held s.trace ≡ some (device_context ∷ [])))
    ⊎ (((env.acquires sge_array && env.acquires requests) ≡ false)
        × (held s.trace ≡ some (result_array ∷ [])))

-- The largest MTU, and the flags of send requests, after `rdma_init`.
abbrev pub mtu_of : Env → ℕ
mtu_of env = 2 ^ (env.active_mtu + 7)

abbrev pub flags_of : Env → ℕ
flags_of env =
    if leb (mtu_of env) env.max_inline_data then bit_or send_signaled send_inline else send_signaled

-- The attributes of the queue pair, and those of its two changes in `rdma_init`.
abbrev pub ud_queue_pair : ℕ → QpInit
ud_queue_pair n = record {
  max_send_wr = n;
  max_recv_wr = n;
  max_send_sge = 1;
  max_recv_sge = 2;
  qp_type = qpt_ud;
}

abbrev pub init_attr : Env → QpAttr
init_attr env = record env.queried_attr {
  qp_state = QpState.init;
  pkey_index = 0;
  port_num = ib_port;
  qkey = shared_queue_key;
}

abbrev pub rtr_attr : Env → QpAttr
rtr_attr env = record (init_attr env) { qp_state = QpState.rtr }

-- The static variables after `rdma_init`.
abbrev pub initialised : Env → ℕ → Rdma
initialised env n = record start {
  queue_size = n;
  max_mtu = mtu_of env;
  send_flags = flags_of env;
  trace =
      acquired qp
      ∷ acquired cq
      ∷ acquired pd
      ∷ released device_list
      ∷ acquired device_context
      ∷ acquired device_list
      ∷ [];
  calls =
      VerbsCall.modify_qp (rtr_attr env) rtr_mask
      ∷ VerbsCall.modify_qp (init_attr env) init_mask
      ∷ VerbsCall.create_qp (ud_queue_pair n)
      ∷ VerbsCall.create_cq n
      ∷ [];
}

-- The static variables before `find_device`, and after `ibv_query_port`.
abbrev listed : ℕ → Rdma
listed n = record start { queue_size = n; trace = acquired device_list ∷ [] }

abbrev opened : Env → ℕ → Rdma
opened env n = record start {
  queue_size = n;
  max_mtu = mtu_of env;
  trace = released device_list ∷ acquired device_context ∷ acquired device_list ∷ [];
}

module _ {ℓ κ} {A : Type ℓ} (P : Ending A → Type κ) (env : Env) (requests : Resource)
    (closes : (r : Resource) → env.releases r ≡ true)
    (exits : (s : Rdma) → IsReleased env requests s → P (exited s)) where
  make_queues_branches :
      (n : ℕ) (continue : Rdma → Ending A)
      → P (continue (initialised env n))
      → P (make_queues env n (opened env n) continue)
  unfolding make_queues ready_queue_pair try_create try_modify clean_context IsReleased Tries.closed
      log
  make_queues_branches n continue go = elim (Bool-cases (env.acquires pd)) [
    | inr bad ↦ rw (bad) (exits _ (inr (inl (bad, refl))))
    | inl ok ↦ elim (Bool-cases (env.acquires cq)) [
      | inr bad ↦ rw (ok, bad, Tries.clean_protection_domain-exited env closes) (exits _ (inl refl))
      | inl ok₁ ↦ elim (Bool-cases (env.acquires qp)) [
        | inr bad ↦
            rw (ok, ok₁, bad, Tries.clean_completion_queue-exited env closes) (exits _ (inl refl))
        | inl ok₂ ↦ elim (Bool-cases (env.answers modify_init)) [
          | inr bad ↦
              rw (ok, ok₁, ok₂, bad, Tries.clean_queue_pair-exited env closes) (exits _ (inl refl))
          | inl ok₃ ↦ elim (Bool-cases (env.answers modify_rtr)) [
            | inr bad ↦
                rw (ok, ok₁, ok₂, ok₃, bad, Tries.clean_queue_pair-exited env closes)
                  (exits _ (inl refl))
            | inl ok₄ ↦ rw (ok, ok₁, ok₂, ok₃, ok₄) go
          ]
        ]
      ]
    ]
  ]

  after_find_branches :
      (found : Option (List ℕ)) (n : ℕ) (continue : Rdma → Ending A)
      → P (continue (initialised env n))
      → P (after_find env found n (listed n) continue)
  unfolding after_find open_device try_acquire try_query clean_context IsReleased log
  after_find_branches none n continue go = exits _ (inl refl)
  after_find_branches (some ib_dev) n continue go =
      elim (Bool-cases (env.acquires device_context)) [
        | inr bad ↦ rw (bad) (exits _ (inl refl))
        | inl ok ↦ elim (Bool-cases (env.answers query_port)) [
          | inr bad ↦ rw (ok, bad, Tries.clean_device-exited env closes) (exits _ (inl refl))
          | inl ok₁ ↦ rw (ok, ok₁) (make_queues_branches n continue go)
        ]
      ]

  pub rdma_init_branches :
      (dev_name : List ℕ) (n : ℕ) (continue : Rdma → Ending A)
      → P (continue (initialised env n))
      → P (rdma_init env dev_name n start continue)
  unfolding rdma_init try_acquire IsReleased log
  rdma_init_branches dev_name n continue go = elim (Bool-cases (env.acquires device_list)) [
    | inr bad ↦ rw (bad) (exits _ (inl refl))
    | inl ok ↦ rw (ok) (after_find_branches (find_device dev_name env.devices) n continue go)
  ]

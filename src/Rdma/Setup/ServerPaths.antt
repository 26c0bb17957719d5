-- ===== src/Rdma/Setup/ServerPaths.antt =====
-- `allocate_buf` and `rdma_init_server`, on every path.
use ibverb_prototype.Prelude.{ℕ, ◌*◌, ◌≡◌, refl, inl, inr, Bool-cases, true, List, ◌∷◌}
use ibverb_prototype.Rdma.Buffers.{ServerArrays, server_arrays}
use ibverb_prototype.Rdma.Setup.State.{
  Resource, data_mem, data_mr, header_mem, header_mr, result_array, sge_array, recv_array,
  query_gid, query_port_again, print_gid, Env, acquired, Rdma, Ending, exited, returned, log,
  try_acquire, try_query, try_create,
}
use ibverb_prototype.Packet.{msg_size}
use ibverb_prototype.Rdma.Setup.Attributes.{VerbsCall, access_local_write}
use ibverb_prototype.Rdma.Setup.Cleanup.{free, free_if, free_arrays}
use ibverb_prototype.Rdma.Setup.Init.{
  data_region, header_region, allocate_buf, memory_of, registration_of, set_buffer, set_mr,
}
use ibverb_prototype.Rdma.Setup.Programs.{
  rdma_init_server, make_server_arrays, report_server, give_up, give_up_early, give_up_freeing,
}
use ibverb_prototype.Rdma.Setup.Tries.{
  closed, unregistered, internal_rdma_cleanup-closed, rdma_cleanup-closed,
}
use ibverb_prototype.Rdma.Setup.Released.{IsReleased, initialised, rdma_init_branches}

-- How an initialiser ends: with its arrays and the static variables that it has set, or with
-- nothing held but what `IsReleased` allows.
unfoldable pub IsSetUp : {A : Type 0} → Env → Resource → A → Rdma → Ending A → Type 0
unfolding IsReleased
IsSetUp env requests a s (returned a' s') = (a' ≡ a) × (s' ≡ s)
IsSetUp env requests a s (exited s') = IsReleased env requests s'

-- The static variables after the data buffer is there, after the header buffer is, and when the
-- server is set up.
abbrev pub with_data : Env → ℕ → Rdma
with_data env n = record (initialised env n) {
  buffer = true;
  memory_region = true;
  trace = acquired data_mr ∷ acquired data_mem ∷ (initialised env n).trace;
  calls = VerbsCall.register_memory (n * msg_size) access_local_write ∷ (initialised env n).calls;
}

abbrev with_header : Env → ℕ → Rdma
with_header env n = record (with_data env n) {
  header_buffer = true;
  header_memory_region = true;
  trace = acquired header_mr ∷ acquired header_mem ∷ (with_data env n).trace;
  calls = VerbsCall.register_memory (n * 40) access_local_write ∷ (with_data env n).calls;
}

abbrev pub server_ready : Env → ℕ → Rdma
server_ready env n = record (with_header env n) {
  scatter_gather = true;
  recv_requests = true;
  trace =
      acquired recv_array ∷ acquired sge_array ∷ acquired result_array ∷ (with_header env n).trace;
}

module _ (env : Env) (closes : (r : Resource) → env.releases r ≡ true) where
  pub data_buffer_branches :
      {A : Type 0} (requests : Resource) (a : A) (s : Rdma) (n : ℕ) (continue : Rdma → Ending A)
      → IsSetUp env requests a s (continue (with_data env n))
      → IsSetUp env requests a s (
          allocate_buf env data_region
            (n * msg_size)
            (initialised env n)
            (give_up_early env)
            continue)
  unfolding allocate_buf memory_of registration_of set_buffer set_mr give_up_early try_acquire
      try_create IsSetUp IsReleased closed free free_if log
  data_buffer_branches requests a s n continue go = elim (Bool-cases (env.acquires data_mem)) [
    | inr bad ↦ rw (bad, internal_rdma_cleanup-closed env closes) (inl refl)
    | inl ok ↦ elim (Bool-cases (env.acquires data_mr)) [
      | inr bad ↦ rw (ok, bad, internal_rdma_cleanup-closed env closes) (inl refl)
      | inl ok₁ ↦ rw (ok, ok₁) go
    ]
  ]

  header_buffer_branches :
      {A : Type 0} (requests : Resource) (a : A) (s : Rdma) (n : ℕ) (continue : Rdma → Ending A)
      → IsSetUp env requests a s (continue (with_header env n))
      → IsSetUp env requests a s
          (allocate_buf env header_region (n * 40) (with_data env n) (give_up env) continue)
  unfolding allocate_buf memory_of registration_of set_buffer set_mr give_up try_acquire try_create
      IsSetUp IsReleased closed unregistered free free_if free_arrays log
  header_buffer_branches requests a s n continue go = elim (Bool-cases (env.acquires header_mem)) [
    | inr bad ↦ rw (bad, rdma_cleanup-closed env closes) (inl refl)
    | inl ok ↦ elim (Bool-cases (env.acquires header_mr)) [
      | inr bad ↦ rw (ok, bad, rdma_cleanup-closed env closes) (inl refl)
      | inl ok₁ ↦ rw (ok, ok₁) go
    ]
  ]

  report_server_branches :
      (a : ServerArrays) (n : ℕ)
      → IsSetUp env recv_array a (server_ready env n) (report_server env a (server_ready env n))
  unfolding report_server try_query give_up_freeing give_up IsSetUp IsReleased closed unregistered
      free free_if free_arrays log
  report_server_branches a n = elim (Bool-cases (env.answers query_gid)) [
    | inr bad ↦ rw (bad, rdma_cleanup-closed env closes) (inl refl)
    | inl ok ↦ elim (Bool-cases (env.answers query_port_again)) [
      | inr bad ↦ rw (ok, bad, rdma_cleanup-closed env closes) (inl refl)
      | inl ok₁ ↦ elim (Bool-cases (env.answers print_gid)) [
        | inr bad ↦ rw (ok, ok₁, bad, rdma_cleanup-closed env closes) (inl refl)
        | inl ok₂ ↦ rw (ok, ok₁, ok₂) (refl, refl)
      ]
    ]
  ]

  make_server_arrays_branches :
      (n : ℕ)
      → IsSetUp env recv_array
          (server_arrays n env.header_key env.data_key)
          (server_ready env n)
          (make_server_arrays env n (with_header env n))
  unfolding make_server_arrays try_acquire give_up IsSetUp IsReleased closed unregistered free
      free_if free_arrays log
  make_server_arrays_branches n = elim (Bool-cases (env.acquires result_array)) [
    | inr bad ↦ rw (bad, rdma_cleanup-closed env closes) (inl refl)
    | inl ok ↦ elim (Bool-cases (env.acquires sge_array)) [
      | inr bad ↦ rw (ok, bad, rdma_cleanup-closed env closes) (inr (inr (rw (bad) refl, refl)))
      | inl ok₁ ↦ elim (Bool-cases (env.acquires recv_array)) [
        | inr bad ↦
            rw (ok, ok₁, bad, rdma_cleanup-closed env closes) (inr (inr (rw (ok₁, bad) refl, refl)))
        | inl ok₂ ↦
            rw (ok, ok₁, ok₂)
              (report_server_branches (server_arrays n env.header_key env.data_key) n)
      ]
    ]
  ]

  -- If every release succeeds, then for every answer of the other calls `rdma_init_server` ends in one
  -- of two ways. It returns the arrays of the ring, with every resource acquired and the static variables
  -- set. Or it exits with every resource released again, but for the device when no protection domain
  -- could be allocated, and for the result array when one of the two arrays after it could not. What is
  -- released was held, and nothing that was still held rested on it.
  pub rdma_init_server-IsSetUp :
      (dev_name : List ℕ) (n : ℕ)
      → IsSetUp env recv_array
          (server_arrays n env.header_key env.data_key)
          (server_ready env n)
          (rdma_init_server env dev_name n)
  unfolding rdma_init_server IsSetUp
  rdma_init_server-IsSetUp dev_name n =
      rdma_init_branches
        (IsSetUp env recv_array (server_arrays n env.header_key env.data_key) (server_ready env n))
        env recv_array closes (λ s left. left) dev_name n
        (λ s. allocate_buf env data_region (n * msg_size) s (give_up_early env) (λ s.
          allocate_buf env header_region (n * 40) s (give_up env)
            (λ s. make_server_arrays env n s)))
        (data_buffer_branches recv_array (server_arrays n env.header_key env.data_key)
          (server_ready env n) n
          (λ s.
            allocate_buf env header_region (n * 40) s (give_up env)
              (λ s. make_server_arrays env n s))
          (header_buffer_branches recv_array (server_arrays n env.header_key env.data_key)
            (server_ready env n) n (λ s. make_server_arrays env n s)
            (make_server_arrays_branches n)))

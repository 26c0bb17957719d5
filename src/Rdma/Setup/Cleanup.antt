-- ===== src/Rdma/Setup/Cleanup.antt =====
-- `internal_rdma_cleanup` and `rdma_cleanup`.
use ibverb_prototype.Prelude.{Bool, true, false}
use ibverb_prototype.Rdma.Setup.State.{
  Resource, pd, cq, qp, device_context, ah_handle, data_mem, data_mr, header_mem, header_mr,
  sge_array, recv_array, send_array, Env, released, Rdma, Ending, log, must_release,
}

-- `free` of an array of the C library, and `if (p) free(p)`.
unfoldable pub free : Resource → Rdma → Rdma
unfolding log
free r s = log (released r) s

unfoldable pub free_if : Bool → Resource → Rdma → Rdma
unfolding free
free_if true r s = free r s
free_if false r s = s

-- The three arrays that are freed only if they are there, and the rest.
unfoldable pub free_arrays : Rdma → Rdma
unfolding free_if
free_arrays s =
    free_if s.send_requests send_array
      (free_if s.recv_requests recv_array (free_if s.scatter_gather sge_array s))

module _ {ℓ} {A : Type ℓ} (env : Env) where
  -- `if (p)` around a release whose failure ends the process.
  unfoldable pub release_if : Bool → Resource → Rdma → (Rdma → Ending A) → Ending A
  unfolding must_release
  release_if true r s continue = must_release env r s continue
  release_if false r s continue = continue s

  unfoldable pub internal_rdma_cleanup : Rdma → (Rdma → Ending A) → Ending A
  unfolding release_if must_release
  internal_rdma_cleanup s continue = release_if s.ah ah_handle s (λ s. must_release env qp s (λ s.
      must_release env cq s
        (λ s. must_release env pd s (λ s. must_release env device_context s continue))))

  unfoldable pub rdma_cleanup : Rdma → (Rdma → Ending A) → Ending A
  unfolding internal_rdma_cleanup free_arrays free free_if release_if must_release
  rdma_cleanup s continue = must_release env data_mr s (λ s.
      release_if s.header_memory_region header_mr (free data_mem s)
        (λ s. internal_rdma_cleanup (free_arrays (free_if s.header_buffer header_mem s)) continue))

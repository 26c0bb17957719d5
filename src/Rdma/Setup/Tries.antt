-- ===== src/Rdma/Setup/Tries.antt =====
-- The clean-up labels and the clean-up functions, when every release succeeds.
use ibverb_prototype.Prelude.{◌≡◌, refl, ap, ◌∙◌, Bool, true, false}
use ibverb_prototype.Rdma.Setup.State.{
  Resource, device_context, pd, cq, qp, ah_handle, data_mem, data_mr, header_mem, header_mr, Env,
  released, Rdma, Ending, exited, log, release, must_release,
}
use ibverb_prototype.Rdma.Setup.Cleanup.{
  free, free_if, free_arrays, internal_rdma_cleanup, rdma_cleanup, release_if,
}
use ibverb_prototype.Rdma.Setup.Init.{
  clean_context, clean_device, clean_protection_domain, clean_completion_queue, clean_queue_pair,
}

-- The last four releases of the clean-up.
unfoldable pub closed : Rdma → Rdma
unfolding log
closed s =
    log (released device_context) (log (released pd) (log (released cq) (log (released qp) s)))

-- `rdma_cleanup` before its call of `internal_rdma_cleanup`.
unfoldable pub unregistered : Rdma → Rdma
unfolding log free free_if free_arrays
unregistered s =
    let t = free data_mem (log (released data_mr) s) in
    let u = free_if s.header_memory_region header_mr t in
    free_arrays (free_if u.header_buffer header_mem u)

module _ (env : Env) (closes : (r : Resource) → env.releases r ≡ true) where
  release-log : (r : Resource) (s : Rdma) → release env r s ≡ log (released r) s
  unfolding release log
  release-log r s = rw (closes r) refl

  pub clean_device-exited {ℓ} :
      {A : Type ℓ} (s : Rdma)
      → clean_device {A = A} env s ≡ exited (log (released device_context) s)
  unfolding clean_device clean_context
  clean_device-exited s = ap exited (release-log device_context s)

  pub clean_protection_domain-exited {ℓ} :
      {A : Type ℓ} (s : Rdma)
      → clean_protection_domain {A = A} env s
        ≡ exited (log (released device_context) (log (released pd) s))
  unfolding clean_protection_domain
  clean_protection_domain-exited s =
      clean_device-exited (release env pd s)
      ∙ ap (λ t. exited (log (released device_context) t)) (release-log pd s)

  pub clean_completion_queue-exited {ℓ} :
      {A : Type ℓ} (s : Rdma)
      → clean_completion_queue {A = A} env s
        ≡ exited (log (released device_context) (log (released pd) (log (released cq) s)))
  unfolding clean_completion_queue
  clean_completion_queue-exited s =
      clean_protection_domain-exited (release env cq s)
      ∙ ap (λ t. exited (log (released device_context) (log (released pd) t))) (release-log cq s)

  pub clean_queue_pair-exited {ℓ} :
      {A : Type ℓ} (s : Rdma) → clean_queue_pair {A = A} env s ≡ exited (closed s)
  unfolding clean_queue_pair closed
  clean_queue_pair-exited s =
      clean_completion_queue-exited (release env qp s)
      ∙ ap (λ t. exited (log (released device_context) (log (released pd) (log (released cq) t))))
          (release-log qp s)

  release_if-log_if {ℓ} :
      {A : Type ℓ} (b : Bool) (r : Resource) (s : Rdma) (continue : Rdma → Ending A)
      → release_if env b r s continue ≡ continue (free_if b r s)
  unfolding release_if must_release free_if free log
  release_if-log_if true r s continue = rw (closes r) refl
  release_if-log_if false r s continue = refl

  pub internal_rdma_cleanup-closed {ℓ} :
      {A : Type ℓ} (s : Rdma) (continue : Rdma → Ending A)
      → internal_rdma_cleanup env s continue ≡ continue (closed (free_if s.ah ah_handle s))
  unfolding internal_rdma_cleanup must_release closed log
  internal_rdma_cleanup-closed s continue =
      rw
        (release_if-log_if s.ah ah_handle s, closes qp, closes cq, closes pd, closes device_context)
        refl

  pub rdma_cleanup-closed {ℓ} :
      {A : Type ℓ} (s : Rdma) (continue : Rdma → Ending A)
      → rdma_cleanup env s continue
        ≡ continue (closed (free_if (unregistered s).ah ah_handle (unregistered s)))
  unfolding rdma_cleanup must_release unregistered log free
  rdma_cleanup-closed s continue =
      rw (closes data_mr, release_if-log_if s.header_memory_region header_mr)
        (internal_rdma_cleanup-closed (unregistered s) continue)

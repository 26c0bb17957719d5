-- ===== src/Rdma/Device.antt =====
-- What the programs use of an RDMA device once it is set up: posting a chain of requests to a
-- queue, and polling for completions. The device is not part of the repository.
use ibverb_prototype.Prelude.{ℕ, ◌≤◌, ◌≡◌, Bool, true, List, ◌++◌, length, map}

-- `struct ibv_wc`, with the members that the programs read; `success` is whether the status is
-- IBV_WC_SUCCESS.
pub record Wc : Type 0 where
  pub wr_id : ℕ
  pub success : Bool
  pub byte_len : ℕ

-- What `ibv_poll_cq` returns: a negative number, or how many completions it has written.
pub data Poll : Type 0 where
  poll_failed : Poll
  polled : List Wc → Poll

-- A device that takes requests of type A. `outstanding` is the identifiers of the requests that it
-- has accepted and not yet completed, oldest first; no program reads it.
pub record Device {ℓ} (A : Type ℓ) : Type (ℓ ⊔ 1) where
  pub Q : Type 0
  pub outstanding : Q → List ℕ
  pub ibv_post : List A → Q → Bool × Q
  pub ibv_poll_cq : ℕ → Q → Poll × Q

-- The documented order of one work queue: requests are queued in the order of their posting, and
-- completions are reported in that order, at most as many as were asked for.
pub record IsFifo {ℓ} {A : Type ℓ} (id : A → ℕ) (d : Device A) : Type (ℓ ⊔ 1) where
  pub post_order :
      (chain : List A) (q q' : d.Q)
      → d.ibv_post chain q ≡ (true, q')
      → d.outstanding q' ≡ d.outstanding q ++ map id chain
  pub poll_order :
      (limit : ℕ) (q q' : d.Q) (wcs : List Wc)
      → d.ibv_poll_cq limit q ≡ (polled wcs, q')
      → (d.outstanding q ≡ map (λ (w : Wc). w.wr_id) wcs ++ d.outstanding q') × (length wcs ≤ limit)

-- ===== src/Rdma/Lively.antt =====
-- A device that makes progress.
use ibverb_prototype.Prelude.{◌<◌, ◌≡◌, sym, ap, subst, ◌∙◌, arith, true, List, [], length, All}
use ibverb_prototype.Rdma.Device.{Wc, Poll, polled, poll_failed, Device}

abbrev pub AllSucceed : List Wc → Type 0
AllSucceed = All (λ (w : Wc). w.success ≡ true)

-- While a request is with the device each poll completes one at least, with success, and the device takes
-- every chain.
pub record IsLively {ℓ} {A : Type ℓ} (d : Device A) : Type (ℓ ⊔ 1) where
  pub polls :
      (q : d.Q)
      → 0 < length (d.outstanding q)
      → (wcs : List Wc) × (q' : d.Q) × (d.ibv_poll_cq 10 q ≡ (polled wcs, q'))
        × (0 < length wcs)
        × AllSucceed wcs
  pub takes : (chain : List A) (q : d.Q) → (d.ibv_post chain q).0 ≡ true

abbrev completions : Poll → List Wc
completions (polled wcs) = wcs
completions poll_failed = []

module _ {ℓ} {A : Type ℓ} (d : Device A) (lively : IsLively d) (q : d.Q)
    (some_left : 0 < length (d.outstanding q)) where
  -- What a poll gives back.
  pub progress :
      (wcs : List Wc) (q' : d.Q)
      → d.ibv_poll_cq 10 q ≡ (polled wcs, q')
      → (0 < length wcs) × AllSucceed wcs
  progress wcs q' e =
      let (found, left, polls, many, good) = lively.polls q some_left in
      let same : found ≡ wcs = ap (λ (p : Poll × d.Q). completions p.0) (sym polls ∙ e) in
      subst (λ l. (0 < length l) × AllSucceed l) same (many, good)

  pub never_fails : (q' : d.Q) → d.ibv_poll_cq 10 q ≡ (poll_failed, q') → ⊥
  never_fails q' e =
      let (found, left, polls, many, good) = lively.polls q some_left in
      let same : completions poll_failed ≡ found =
        ap (λ (p : Poll × d.Q). completions p.0) (sym e ∙ polls) in
      let clash : ⊥ = omega (arith, ap length same) in clash

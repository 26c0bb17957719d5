-- ===== src/RdmaServer/Live.antt =====
-- The server on a device that makes progress.
use ibverb_prototype.Prelude.{
  ℕ, zero, suc, ◌+◌, ◌%◌, ◌≤◌, ◌<◌, ◌≡◌, refl, sym, ap, ◌∙◌, arith, List, [], ◌∷◌, length,
}
use ibverb_prototype.Rdma.Request.{RecvWr}
use ibverb_prototype.Rdma.Post.Ring.{window}
use ibverb_prototype.Rdma.Post.Window.{length-window}
use ibverb_prototype.Rdma.Device.{Device, IsFifo}
use ibverb_prototype.Rdma.Buffers.{server_arrays}
use ibverb_prototype.Rdma.Buffers.Layout.{server_arrays-IsRing}
use ibverb_prototype.Rdma.Lively.{IsLively, progress, never_fails}
use ibverb_prototype.RdmaServer.{
  Report, Server, finished, serve, server_main, completion_queue_size,
}
use ibverb_prototype.RdmaServer.Order.{reported, IsServing}
use ibverb_prototype.RdmaServer.Rounds.{IsRefused, Cause, Posting, Round, after_poll-Round}
use ibverb_prototype.RdmaServer.Main.{server_arrays-HasPieces, serve_from-Posting}

length-reported : (rs : List Report) → length (reported rs) ≡ length rs
length-reported [] = refl
length-reported (r ∷ rs) = ap suc (length-reported rs)

module _ (d : Device RecvWr) (fifo : IsFifo (λ (r : RecvWr). r.wr_id) d) (lively : IsLively d)
    (n : ℕ) (pos : 0 < n) where
  takes-IsRefused : IsRefused d fifo n pos → ⊥
  unfolding IsRefused
  takes-IsRefused (chain, q, refused) =
      let taken = lively.takes chain q in let clash : ⊥ = cc in clash

  -- A full ring has requests with the device.
  some_left :
      (s : Server d) (total : ℕ) → IsServing d n s total → 0 < length (d.outstanding s.queue)
  some_left s total v = omega (arith, ap length v.posted, length-window n (total % n) n)

  no_Cause : (s : Server d) (total : ℕ) → IsServing d n s total → Cause d fifo n pos s.queue → ⊥
  no_Cause s total v (Cause.poll_fails q e) = never_fails d lively s.queue (some_left s total v) q e
  no_Cause s total v (Cause.request_fails wcs q e bad) =
      bad (progress d lively s.queue (some_left s total v) wcs q e).1
  no_Cause s total v (Cause.post_fails refused) = takes-IsRefused refused

  -- Each round completes a request at least.
  serve_progress :
      (rounds : ℕ) (s : Server d) (total : ℕ)
      → IsServing d n s total
      → (s' : Server d) × (total' : ℕ) × (serve d rounds s ≡ finished s')
        × (total + rounds ≤ total')
        × IsServing d n s' total'
  unfolding serve
  serve_progress zero s total v = (s, total, refl, omega arith, v)
  serve_progress (suc rounds) s total v =
      elim (after_poll-Round d fifo n pos s (λ s'. serve d rounds s') total
        (d.ibv_poll_cq 10 s.queue) v refl) [
          | Round.goes_on s1 wcs q e polls few v1 ↦
              let many = progress d lively s.queue (some_left s total v) wcs q polls in
              let (s', total', run, grown, v') = serve_progress rounds s1 (total + length wcs) v1 in
              (s', total', e ∙ run, omega (arith, many.0), v')
          | Round.stops s1 count few e printed placed cause ↦ absurd (no_Cause s total v cause)
        ]

module _ (d : Device RecvWr) (fifo : IsFifo (λ (r : RecvWr). r.wr_id) d) (lively : IsLively d) where
  -- On a device that keeps the order of its queue, starts with it empty, takes every request, and
  -- completes with success one at least in each poll while it has any: the server ends by its flag
  -- and not by a failure, and it has reported a message at least for each round of its loop, all of them in the
  -- order of the ring.
  pub server_main_progress :
      (header_key data_key : ℕ) (queue : d.Q) (rounds : ℕ)
      → d.outstanding queue ≡ []
      → (s' : Server d) × (total : ℕ) × (server_main d header_key data_key queue rounds
          ≡ finished s')
        × (rounds ≤ total)
        × (reported s'.reports ≡ window completion_queue_size 0 total)
        × (length s'.reports ≡ total)
  unfolding server_main
  server_main_progress header_key data_key queue rounds empty =
      let n : ℕ = completion_queue_size in
      let pos : 0 < n = omega arith in
      elim (serve_from-Posting d fifo n (server_arrays n header_key data_key) queue rounds pos
        (server_arrays-HasPieces n header_key data_key) (server_arrays-IsRing n header_key data_key)
        empty) [
          | Posting.posted_on s1 e v ↦
              let (s', total, run, grown, v') = serve_progress d fifo lively n pos rounds s1 0 v in
              (
                s',
                total,
                e ∙ run,
                omega arith,
                v'.printed,
                sym (length-reported s'.reports) ∙ ap length v'.printed ∙ length-window n 0 total,
              )
          | Posting.refused_at s1 e same refused ↦
              absurd (takes-IsRefused d fifo lively n pos refused)
        ]

-- ===== src/RdmaServer/Main.antt =====
-- The server's run from its first posting on.
use ibverb_prototype.Prelude.{
  ℕ, zero, suc, ◌+◌, length, All, sym, subst, ◌%◌, ◌<◌, ◌≡◌, refl, ap, ◌∙◌, arith, [], ◌++◌,
}
use native.Mathlib.Nat.{le_refl}
use ibverb_prototype.Rdma.Request.{RecvWr, recv_linked}
use ibverb_prototype.Rdma.Post.Ring.{IsRing, window}
use ibverb_prototype.Rdma.Buffers.{ServerArrays, server_arrays}
use ibverb_prototype.Rdma.Buffers.Layout.{server_arrays-IsRing, server_arrays-IsServerEntry}
use ibverb_prototype.Rdma.Device.{Device, IsFifo}
use ibverb_prototype.RdmaServer.{Server, serve, serve_from, server_main, completion_queue_size}
use ibverb_prototype.RdmaServer.Order.{HasPieces, IsServing, IsOrdered, reported, IsPlaced}
use ibverb_prototype.RdmaServer.Rounds.{Posting, Round, post_recvs-Posting, after_poll-Round}

pub server_arrays-HasPieces :
    (n header_key data_key : ℕ) → HasPieces n (server_arrays n header_key data_key).buffers
server_arrays-HasPieces n header_key data_key i h =
    (_, (server_arrays-IsServerEntry n header_key data_key i h).buffer, refl)

module _ (d : Device RecvWr) (fifo : IsFifo (λ (r : RecvWr). r.wr_id) d) where
  serve-IsOrdered :
      (n : ℕ) (pos : 0 < n) (rounds : ℕ) (s : Server d) (total : ℕ)
      → IsServing d n s total
      → IsOrdered d n (serve d rounds s)
  unfolding serve
  serve-IsOrdered n pos zero s total v = (total, v)
  serve-IsOrdered n pos (suc rounds) s total v =
      elim (after_poll-Round d fifo n pos s (λ s'. serve d rounds s') total
        (d.ibv_poll_cq 10 s.queue) v refl) [
          | Round.goes_on s' wcs q e polls few v' ↦
              subst (IsOrdered d n) (sym e)
                (serve-IsOrdered n pos rounds s' (total + length wcs) v')
          | Round.stops s' count few e printed placed cause ↦
              subst (IsOrdered d n) (sym e) (total + count, printed, placed)
        ]

  -- The state that the first posting starts from.
  abbrev pub first_state : ℕ → ServerArrays → d.Q → Server d
  first_state n a queue = record {
    queue_size = n;
    buffers = a.buffers;
    requests = a.recv_requests;
    queue = queue;
    reports = [];
  }

  pub serve_from-Posting :
      (n : ℕ) (a : ServerArrays) (queue : d.Q) (rounds : ℕ) (pos : 0 < n)
      → HasPieces n a.buffers
      → IsRing n a.recv_requests
      → d.outstanding queue ≡ []
      → Posting d fifo n pos
          (first_state n a queue)
          0
          (λ s. serve d rounds s)
          (serve_from d n a queue rounds)
  unfolding serve_from
  serve_from-Posting n a queue rounds pos pieces ring empty =
      post_recvs-Posting d fifo n pos 0 n (first_state n a queue) (λ s. serve d rounds s) 0 pos pos
        (le_refl n)
        (record { queue_size = refl; pieces = pieces; ring = ring; printed = refl; placed = tt })
        (ap (λ l. l ++ window n 0 n) empty
          ∙ ap (λ h. window n h n) (let e : 0 ≡ 0 % n = omega arith in e))

  serve_from-IsOrdered :
      (n : ℕ) (a : ServerArrays) (queue : d.Q) (rounds : ℕ) (pos : 0 < n)
      → HasPieces n a.buffers
      → IsRing n a.recv_requests
      → d.outstanding queue ≡ []
      → IsOrdered d n (serve_from d n a queue rounds)
  serve_from-IsOrdered n a queue rounds pos pieces ring empty =
      elim (serve_from-Posting n a queue rounds pos pieces ring empty) [
        | Posting.posted_on s' e v ↦
            subst (IsOrdered d n) (sym e) (serve-IsOrdered n pos rounds s' 0 v)
        | Posting.refused_at s' e same refused ↦
            subst (IsOrdered d n) (sym e) (0, ap reported same, subst (All IsPlaced) (sym same) tt)
      ]

  -- On a device that keeps the order of its queue and starts with it empty, for any number of
  -- rounds: the server reports the completions of requests 0, 1, …, 99, 0, 1, … in this order and
  -- each with its own piece of the data buffer, also when it stops on a failure. When the flag
  -- stops it, all 100 requests are with the device again, from the next one to complete on,
  -- and the ring is whole. It never accesses an array outside its bounds.
  pub server_main-IsOrdered :
      (header_key data_key : ℕ) (queue : d.Q) (rounds : ℕ)
      → d.outstanding queue ≡ []
      → IsOrdered d completion_queue_size (server_main d header_key data_key queue rounds)
  unfolding server_main
  server_main-IsOrdered header_key data_key queue rounds empty =
      serve_from-IsOrdered completion_queue_size
        (server_arrays completion_queue_size header_key data_key) queue rounds (omega arith)
        (server_arrays-HasPieces completion_queue_size header_key data_key)
        (server_arrays-IsRing completion_queue_size header_key data_key) empty

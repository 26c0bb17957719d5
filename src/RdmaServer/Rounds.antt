-- ===== src/RdmaServer/Rounds.antt =====
-- One round of the server's loop: the state that it goes on with, or why it stops.
use ibverb_prototype.Prelude.{
  ℕ, ◌+◌, ◌%◌, ◌≤◌, ◌<◌, ◌≡◌, refl, sym, ap, subst, ◌∙◌, arith, Bool, true, false, some, List, [],
  ◌∷◌, ◌++◌, append-nil, map, length, All,
}
use native.Mathlib.Nat.{mod-lt}
use ibverb_prototype.Rdma.Request.{RecvWr, recv_linked}
use ibverb_prototype.Rdma.Post.{post}
use ibverb_prototype.Rdma.Post.Ring.{window, post-window}
use ibverb_prototype.Rdma.Polling.{ids, polled-IsTurn}
use ibverb_prototype.Rdma.Device.{Wc, Poll, poll_failed, polled, Device, IsFifo}
use ibverb_prototype.Rdma.Lively.{AllSucceed}
use ibverb_prototype.RdmaServer.{
  Report, checked, Server, ServerEnd, failed, after_post, post_recvs, requeue, after_check,
  after_poll,
}
use ibverb_prototype.RdmaServer.Order.{
  reported, IsPlaced, IsServing, IsReady, reported-window, check-IsCheck,
}

module _ (d : Device RecvWr) (fifo : IsFifo (λ (r : RecvWr). r.wr_id) d) (n : ℕ) (pos : 0 < n) where
  -- A call of `ibv_post_recv` is refused.
  unfoldable pub IsRefused : Type 0
  IsRefused = (chain : List RecvWr) × (queue : d.Q) × ((d.ibv_post chain queue).0 ≡ false)

  -- Why a round stops.
  pub data Cause (queue : d.Q) : Type 0 where
    poll_fails : (q : d.Q) → d.ibv_poll_cq 10 queue ≡ (poll_failed, q) → Cause queue
    request_fails :
        (wcs : List Wc) (q : d.Q)
        → d.ibv_poll_cq 10 queue ≡ (polled wcs, q)
        → (AllSucceed wcs → ⊥)
        → Cause queue
    post_fails : IsRefused → Cause queue

  -- What posting comes to, before `continue`.
  pub data Posting (s : Server d) (total : ℕ) (continue : Server d → ServerEnd d) (e : ServerEnd d)
      : Type 0 where
    posted_on :
        (s' : Server d) → e ≡ continue s' → IsServing d n s' total → Posting s total continue e
    refused_at :
        (s' : Server d)
        → e ≡ failed s'
        → s'.reports ≡ s.reports
        → IsRefused
        → Posting s total continue e

  after_post-Posting :
      (s : Server d) (continue : Server d → ServerEnd d) (total : ℕ) (chain : List RecvWr)
      (result : Bool × d.Q)
      → IsReady d n s total
      → d.outstanding s.queue ++ map (λ (r : RecvWr). r.wr_id) chain ≡ window n (total % n) n
      → d.ibv_post chain s.queue ≡ result
      → Posting s total continue (after_post d s continue (some (result.0, s.requests, result.1)))
  unfolding after_post IsRefused
  after_post-Posting s continue total chain (true, queue) ready full e =
      Posting.posted_on (record s { queue = queue }) refl
        (record {
          queue_size = ready.queue_size;
          pieces = ready.pieces;
          ring = ready.ring;
          posted = fifo.post_order chain s.queue queue e ∙ full;
          printed = ready.printed;
          placed = ready.placed;
        })
  after_post-Posting s continue total chain (false, queue) ready full e =
      Posting.refused_at (record s { queue = queue }) refl refl
        (chain, s.queue, ap (λ (r : Bool × d.Q). r.0) e)

  pub post_recvs-Posting :
      (start count : ℕ) (s : Server d) (continue : Server d → ServerEnd d) (total : ℕ)
      → start < n
      → 0 < count
      → count ≤ n
      → IsReady d n s total
      → d.outstanding s.queue ++ window n start count ≡ window n (total % n) n
      → Posting s total continue (post_recvs d start count s continue)
  unfolding post_recvs
  post_recvs-Posting start count s continue total inside asked fits ready full =
      let (chain, named, run) =
        post-window d.ibv_post n start count s.requests s.queue ready.ring inside asked fits in
      rw (ap (λ m. post d.ibv_post m start count s.requests s.queue) ready.queue_size ∙ run) (
        after_post-Posting s continue total chain (d.ibv_post chain s.queue) ready
          (ap (λ l. d.outstanding s.queue ++ l) named ∙ full) refl)

  requeue-Posting :
      (wcs : List Wc) (h : ℕ) (s : Server d) (continue : Server d → ServerEnd d) (total : ℕ)
      → h < n
      → length wcs ≤ n
      → ids wcs ≡ window n h (length wcs)
      → IsReady d n s total
      → d.outstanding s.queue ++ window n h (length wcs) ≡ window n (total % n) n
      → Posting s total continue (requeue d wcs s continue)
  unfolding requeue
  requeue-Posting [] h s continue total inside fits named ready full =
      Posting.posted_on s refl (record {
        queue_size = ready.queue_size;
        pieces = ready.pieces;
        ring = ready.ring;
        posted = sym (append-nil (d.outstanding s.queue)) ∙ full;
        printed = ready.printed;
        placed = ready.placed;
      })
  requeue-Posting (wc ∷ wcs) h s continue total inside fits named ready full =
      let first : wc.wr_id ≡ h = cc in
      post_recvs-Posting wc.wr_id (length (wc ∷ wcs)) s continue total (omega arith) (omega arith)
        fits ready (ap (λ g. d.outstanding s.queue ++ window n g (length (wc ∷ wcs))) first ∙ full)

  -- A round from the head of the loop, after `total` completions: the polled ones, ten at most, are the next
  -- ones, and the loop goes on with them reported and posted again; or it stops, with some of them
  -- reported.
  pub data Round (s : Server d) (total : ℕ) (continue : Server d → ServerEnd d) (e : ServerEnd d)
      : Type 0 where
    goes_on :
        (s' : Server d) (wcs : List Wc) (q : d.Q)
        → e ≡ continue s'
        → d.ibv_poll_cq 10 s.queue ≡ (polled wcs, q)
        → length wcs ≤ 10
        → IsServing d n s' (total + length wcs)
        → Round s total continue e
    stops :
        (s' : Server d) (count : ℕ)
        → count ≤ 10
        → e ≡ failed s'
        → reported s'.reports ≡ window n 0 (total + count)
        → All IsPlaced s'.reports
        → Cause s.queue
        → Round s total continue e

  after_check-Round :
      (wcs : List Wc) (q : d.Q) (s : Server d) (continue : Server d → ServerEnd d) (total count : ℕ)
      (good : Bool) (now : List Report)
      → d.ibv_poll_cq 10 s.queue ≡ (polled wcs, q)
      → length wcs ≤ 10
      → count ≤ length wcs
      → (AllSucceed wcs → good ≡ true)
      → (good ≡ true → count ≡ length wcs)
      → IsReady d n (record s { queue = q; reports = now }) (total + count)
      → length wcs ≤ n
      → ids wcs ≡ window n (total % n) (length wcs)
      → d.outstanding q ++ window n (total % n) (length wcs) ≡ window n ((total + length wcs) % n) n
      → Round s total continue
          (after_check d wcs (record s { queue = q }) continue (checked good now))
  unfolding after_check
  after_check-Round wcs q s continue total count false now polls few part whole complete ready fits
        named full =
      Round.stops (record s { queue = q; reports = now }) count (omega arith) refl ready.printed
        ready.placed
        (Cause.request_fails wcs q polls (λ a. let good = whole a in let clash : ⊥ = cc in clash))
  after_check-Round wcs q s continue total count true now polls few part whole complete ready fits
        named full =
      let counted : count ≡ length wcs = complete refl in
      let s' : Server d = record s { queue = q; reports = now } in
      elim (requeue-Posting wcs (total % n) s' continue (total + length wcs)
        (mod-lt total (omega arith)) fits named
        (subst (λ c. IsReady d n s' (total + c)) counted ready) full) [
          | Posting.posted_on s'' e v ↦ Round.goes_on s'' wcs q e polls few v
          | Posting.refused_at s'' e same refused ↦
              Round.stops s'' count (omega arith) e (ap reported same ∙ ready.printed)
                (subst (All IsPlaced) (sym same) ready.placed) (Cause.post_fails refused)
        ]

  pub after_poll-Round :
      (s : Server d) (continue : Server d → ServerEnd d) (total : ℕ) (p : Poll × d.Q)
      → IsServing d n s total
      → d.ibv_poll_cq 10 s.queue ≡ p
      → Round s total continue (after_poll d s continue p)
  unfolding after_poll
  after_poll-Round s continue total (poll_failed, q) v e =
      Round.stops (record s { queue = q }) 0 (omega arith) refl
        (v.printed ∙ ap (window n 0) (omega arith)) v.placed (Cause.poll_fails q e)
  after_poll-Round s continue total (polled wcs, q) v e =
      let turn =
        polled-IsTurn (λ (r : RecvWr). r.wr_id) d fifo n total 10 s.queue q wcs pos v.posted e in
      let c =
        check-IsCheck n s.buffers v.pieces wcs (total % n) s.reports (mod-lt total (omega arith))
          turn.named v.placed in
      let ready : IsReady d n (record s { queue = q; reports = c.now }) (total + c.count) = record {
        queue_size = v.queue_size;
        pieces = v.pieces;
        ring = v.ring;
        printed = reported-window d n pos total c.count c.now s.reports v.printed c.printed;
        placed = c.placed;
      } in
      rw c.result (
        after_check-Round wcs q s continue total c.count c.good c.now e
          (fifo.poll_order 10 s.queue q wcs e).1 c.part c.whole c.complete ready turn.fits
          turn.named turn.rotated)

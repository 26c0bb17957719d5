-- ===== src/RdmaClient/Order.antt =====
-- The client's loop: which requests are posted, and what the slots of the buffer hold.
use ibverb_prototype.Prelude.{
  ℕ, zero, suc, ◌+◌, ◌%◌, ◌≤◌, ◌<◌, ◌≡◌, refl, sym, ap, ◌∙◌, arith, Bool, true, false, some, List,
  [], ◌∷◌, ◌++◌, append-nil, map, length,
}
use native.Mathlib.Nat.{mod-lt}
use ibverb_prototype.Rdma.Request.{SendWr, send_linked}
use ibverb_prototype.Rdma.Post.{post}
use ibverb_prototype.Rdma.Post.Ring.{IsRing, window, post-window}
use ibverb_prototype.Rdma.Polling.{ids, polled-IsTurn}
use ibverb_prototype.Rdma.Device.{Wc, Poll, poll_failed, polled, Device, IsFifo}
use ibverb_prototype.RdmaClient.{
  Filling, refilled, Client, ClientEnd, finished, failed, fault, after_post_sends, post_sends,
  resend, after_refill, after_send_poll, send,
}
use ibverb_prototype.RdmaClient.Fill.{HasSlots, IsFilled}
use ibverb_prototype.RdmaClient.Refill.{refill-IsRefill}

module _ (d : Device SendWr) (n : ℕ) where
  -- At the head of the loop, after `total` completions: every request is with the device, in the
  -- order of the ring, and the slots of the buffer hold the n messages from number `total` on.
  pub record IsSending (s : Client d) (total : ℕ) : Type 0 where
    pub queue_size : s.queue_size ≡ n
    pub has_slots : HasSlots n s.buffers
    pub ring : IsRing n s.requests
    pub posted : d.outstanding s.queue ≡ window n (total % n) n
    pub filled : IsFilled n total s.filling

  -- What an ending shows of the requests and the buffer, or of the buffer alone after a failure.
  abbrev pub IsSent : ClientEnd d → Type 0
  IsSent (finished s) = (total : ℕ) × IsSending s total
  IsSent (failed s) = (total : ℕ) × IsFilled n total s.filling
  IsSent fault = ⊥

module _ (d : Device SendWr) (fifo : IsFifo (λ (r : SendWr). r.wr_id) d) (n : ℕ) (pos : 0 < n) where
  -- What holds of a state between a poll and the posting that follows it.
  pub record IsLoaded (s : Client d) (total : ℕ) : Type 0 where
    pub queue_size : s.queue_size ≡ n
    pub has_slots : HasSlots n s.buffers
    pub ring : IsRing n s.requests
    pub filled : IsFilled n total s.filling

  -- The loop's head from such a state, by the requests that are with the device.
  pub loaded-IsSending :
      (s : Client d) (queue : d.Q) (total : ℕ)
      → IsLoaded s total
      → d.outstanding queue ≡ window n (total % n) n
      → IsSending d n (record s { queue = queue }) total
  loaded-IsSending s queue total v full = record {
    queue_size = v.queue_size;
    has_slots = v.has_slots;
    ring = v.ring;
    posted = full;
    filled = v.filled;
  }

  after_post_sends-IsSent :
      (s : Client d) (continue : Client d → ClientEnd d) (total : ℕ) (chain : List SendWr)
      (result : Bool × d.Q)
      → IsLoaded s total
      → d.outstanding s.queue ++ map (λ (r : SendWr). r.wr_id) chain ≡ window n (total % n) n
      → ((s' : Client d) → IsSending d n s' total → IsSent d n (continue s'))
      → d.ibv_post chain s.queue ≡ result
      → IsSent d n (after_post_sends d s continue (some (result.0, s.requests, result.1)))
  unfolding after_post_sends
  after_post_sends-IsSent s continue total chain (true, queue) v full next e =
      next (record s { queue = queue })
        (loaded-IsSending s queue total v (fifo.post_order chain s.queue queue e ∙ full))
  after_post_sends-IsSent s continue total chain (false, queue) v full next e = (total, v.filled)

  pub post_sends-IsSent :
      (first count : ℕ) (s : Client d) (continue : Client d → ClientEnd d) (total : ℕ)
      → first < n
      → 0 < count
      → count ≤ n
      → IsLoaded s total
      → d.outstanding s.queue ++ window n first count ≡ window n (total % n) n
      → ((s' : Client d) → IsSending d n s' total → IsSent d n (continue s'))
      → IsSent d n (post_sends d first count s continue)
  unfolding post_sends
  post_sends-IsSent first count s continue total inside asked fits v full next =
      let (chain, named, run) =
        post-window d.ibv_post n first count s.requests s.queue v.ring inside asked fits in
      rw (ap (λ m. post d.ibv_post m first count s.requests s.queue) v.queue_size ∙ run) (
        after_post_sends-IsSent s continue total chain (d.ibv_post chain s.queue) v
          (ap (λ l. d.outstanding s.queue ++ l) named ∙ full) next refl)

  resend-IsSent :
      (wcs : List Wc) (h : ℕ) (s : Client d) (continue : Client d → ClientEnd d) (total : ℕ)
      → h < n
      → length wcs ≤ n
      → ids wcs ≡ window n h (length wcs)
      → IsLoaded s total
      → d.outstanding s.queue ++ window n h (length wcs) ≡ window n (total % n) n
      → ((s' : Client d) → IsSending d n s' total → IsSent d n (continue s'))
      → IsSent d n (resend d wcs s continue)
  unfolding resend
  resend-IsSent [] h s continue total inside fits named v full next =
      next s (loaded-IsSending s s.queue total v (sym (append-nil (d.outstanding s.queue)) ∙ full))
  resend-IsSent (wc ∷ wcs) h s continue total inside fits named v full next =
      let first : wc.wr_id ≡ h = cc in
      post_sends-IsSent wc.wr_id (length (wc ∷ wcs)) s continue total (omega arith) (omega arith)
        fits v (ap (λ g. d.outstanding s.queue ++ window n g (length (wc ∷ wcs))) first ∙ full) next

  after_refill-IsSent :
      (wcs : List Wc) (s : Client d) (continue : Client d → ClientEnd d) (total count : ℕ)
      (good : Bool) (now : Filling)
      → length wcs ≤ n
      → ids wcs ≡ window n (total % n) (length wcs)
      → IsLoaded (record s { filling = now }) (total + count)
      → (good ≡ true → count ≡ length wcs)
      → d.outstanding s.queue ++ window n (total % n) (length wcs)
        ≡ window n ((total + length wcs) % n) n
      → ((s' : Client d) (total' : ℕ) → IsSending d n s' total' → IsSent d n (continue s'))
      → IsSent d n (after_refill d wcs s continue (refilled good now))
  unfolding after_refill
  after_refill-IsSent wcs s continue total count true now fits named v complete full next =
      resend-IsSent wcs (total % n) (record s { filling = now }) continue (total + count)
        (mod-lt total pos) fits named v
        (full ∙ ap (λ m. window n ((total + m) % n) n) (sym (complete refl)))
        (λ s' w. next s' (total + count) w)
  after_refill-IsSent wcs s continue total count false now fits named v complete full next =
      (total + count, v.filled)

  after_send_poll-IsSent :
      (s : Client d) (continue : Client d → ClientEnd d) (total : ℕ) (p : Poll × d.Q)
      → IsSending d n s total
      → ((s' : Client d) (total' : ℕ) → IsSending d n s' total' → IsSent d n (continue s'))
      → d.ibv_poll_cq 10 s.queue ≡ p
      → IsSent d n (after_send_poll d s continue p)
  unfolding after_send_poll
  after_send_poll-IsSent s continue total (poll_failed, queue) v next e = (total, v.filled)
  after_send_poll-IsSent s continue total (polled wcs, queue) v next e =
      let turn =
        polled-IsTurn (λ (r : SendWr). r.wr_id) d fifo n total 10 s.queue queue wcs pos v.posted
          e in
      let c = refill-IsRefill n pos s.buffers v.has_slots wcs total s.filling turn.named v.filled in
      rw c.result (
        after_refill-IsSent wcs (record s { queue = queue }) continue total c.count c.good c.now
          turn.fits turn.named
          (record {
            queue_size = v.queue_size;
            has_slots = v.has_slots;
            ring = v.ring;
            filled = c.filled;
          })
          c.complete turn.rotated next)

  pub send-IsSent :
      (rounds : ℕ) (s : Client d) (total : ℕ) → IsSending d n s total → IsSent d n (send d rounds s)
  unfolding send
  send-IsSent zero s total v = (total, v)
  send-IsSent (suc rounds) s total v =
      after_send_poll-IsSent s (λ s'. send d rounds s') total (d.ibv_poll_cq 10 s.queue) v
        (λ s' total' v'. send-IsSent rounds s' total' v') refl

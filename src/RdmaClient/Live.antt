-- ===== src/RdmaClient/Live.antt =====
-- The client on a device that makes progress.
use ibverb_prototype.Prelude.{
  ℕ, zero, suc, ◌+◌, ◌%◌, ◌≤◌, ◌<◌, ◌≡◌, refl, ap, ◌∙◌, arith, Bool, true, some, List, [], ◌∷◌,
  ◌++◌, length,
}
use native.Mathlib.Nat.{mod-lt, mod-add-mod, le_refl}
use ibverb_prototype.Rdma.Request.{SendWr, send_linked}
use ibverb_prototype.Rdma.Post.{post}
use ibverb_prototype.Rdma.Post.Ring.{window, post-window}
use ibverb_prototype.Rdma.Post.Window.{length-window}
use ibverb_prototype.Rdma.Polling.{ids, polled-IsTurn}
use ibverb_prototype.Rdma.Device.{Wc, Device, IsFifo}
use ibverb_prototype.Rdma.Lively.{AllSucceed, IsLively}
use ibverb_prototype.Rdma.Buffers.{SendBuffer, Target, client_arrays}
use ibverb_prototype.Rdma.Buffers.Client.{client_arrays-IsRing, client_arrays-HasSlots}
use ibverb_prototype.RdmaClient.{
  Filling, refilled, refill_next, refill, Client, ClientEnd, finished, after_post_sends, post_sends,
  resend, after_refill, after_send_poll, send, after_fill, send_from,
}
use ibverb_prototype.RdmaClient.Fill.{HasSlots, IsFilled, fill_slot-IsFilled, fill_all-IsFilled}
use ibverb_prototype.RdmaClient.Order.{IsSending, IsLoaded, loaded-IsSending}

-- Completions that all succeed are all refilled.
refill_all :
    (n : ℕ) (pos : 0 < n) (buffers : List SendBuffer) (has_slots : HasSlots n buffers)
    (wcs : List Wc) (total : ℕ) (f : Filling)
    → ids wcs ≡ window n (total % n) (length wcs)
    → AllSucceed wcs
    → IsFilled n total f
    → (now : Filling) × (refill buffers wcs f ≡ refilled true now)
      × IsFilled n (total + length wcs) now
unfolding refill refill_next
refill_all n pos buffers has_slots [] total f e good v =
    (f, refl, let e : total ≡ total + 0 = omega arith in rw (← e) v)
refill_all n pos buffers has_slots (wc ∷ wcs) total f e (ok, good) v =
    let first : wc.wr_id ≡ total % n = cc in
    let (f', run, v') = fill_slot-IsFilled n pos buffers has_slots total wc.wr_id f v first in
    let rest : ids wcs ≡ window n ((total % n + 1) % n) (length wcs) = cc in
    let (now, later, v'') =
      refill_all n pos buffers has_slots wcs (total + 1) f'
        (rest ∙ ap (λ h. window n h (length wcs)) (mod-add-mod total n 1)) good v' in
    let same : total + 1 + length wcs ≡ total + suc (length wcs) = omega arith in
    (now, rw (ok, run) later, rw (← same) v'')

module _ (d : Device SendWr) (fifo : IsFifo (λ (r : SendWr). r.wr_id) d) (lively : IsLively d)
    (n : ℕ) (pos : 0 < n) where
  -- A posting that fills up the ring is taken.
  post_sends_taken :
      (first count : ℕ) (s : Client d) (continue : Client d → ClientEnd d) (total : ℕ)
      → first < n
      → 0 < count
      → count ≤ n
      → IsLoaded d fifo n pos s total
      → d.outstanding s.queue ++ window n first count ≡ window n (total % n) n
      → (s' : Client d) × (post_sends d first count s continue ≡ continue s')
        × IsSending d n s' total
  unfolding post_sends after_post_sends
  post_sends_taken first count s continue total inside asked fits v full =
      let (chain, named, run) =
        post-window d.ibv_post n first count s.requests s.queue v.ring inside asked fits in
      let queue = (d.ibv_post chain s.queue).1 in
      let taken : d.ibv_post chain s.queue ≡ (true, queue) =
        ap (λ b. (b, queue)) (lively.takes chain s.queue) in
      (
        record s { queue = queue },
        ap (λ m. after_post_sends d s continue (post d.ibv_post m first count s.requests s.queue))
              v.queue_size
            ∙ ap (after_post_sends d s continue) run
            ∙ ap (λ (r : Bool × d.Q). after_post_sends d s continue (some (r.0, s.requests, r.1)))
                taken,
        loaded-IsSending d fifo n pos s queue total v (
            fifo.post_order chain s.queue queue taken
            ∙ ap (λ l. d.outstanding s.queue ++ l) named
            ∙ full),
      )

  resend_taken :
      (wcs : List Wc) (h : ℕ) (s : Client d) (continue : Client d → ClientEnd d) (total : ℕ)
      → h < n
      → 0 < length wcs
      → length wcs ≤ n
      → ids wcs ≡ window n h (length wcs)
      → IsLoaded d fifo n pos s total
      → d.outstanding s.queue ++ window n h (length wcs) ≡ window n (total % n) n
      → (s' : Client d) × (resend d wcs s continue ≡ continue s') × IsSending d n s' total
  unfolding resend
  resend_taken [] h s continue total inside many fits named v full = absurd (omega arith)
  resend_taken (wc ∷ wcs) h s continue total inside many fits named v full =
      let first : wc.wr_id ≡ h = cc in
      post_sends_taken wc.wr_id (length (wc ∷ wcs)) s continue total (omega arith) many fits v
        (ap (λ g. d.outstanding s.queue ++ window n g (length (wc ∷ wcs))) first ∙ full)

  -- A round of the loop completes a message at least, and goes on.
  round_taken :
      (s : Client d) (continue : Client d → ClientEnd d) (total : ℕ)
      → IsSending d n s total
      → (s' : Client d) × (total' : ℕ) × (after_send_poll d s continue (d.ibv_poll_cq 10 s.queue)
          ≡ continue s')
        × (total < total')
        × IsSending d n s' total'
  unfolding after_send_poll after_refill
  round_taken s continue total v =
      let some_left : 0 < length (d.outstanding s.queue) =
        omega (arith, ap length v.posted, length-window n (total % n) n) in
      let (wcs, q, polls, many, good) = lively.polls s.queue some_left in
      let turn =
        polled-IsTurn (λ (r : SendWr). r.wr_id) d fifo n total 10 s.queue q wcs pos v.posted
          polls in
      let (now, all_good, filled) =
        refill_all n pos s.buffers v.has_slots wcs total s.filling turn.named good v.filled in
      let loaded : Client d = record s { queue = q; filling = now } in
      let (s', run, v') =
        resend_taken wcs (total % n) loaded continue (total + length wcs) (mod-lt total pos) many
          turn.fits turn.named
          (record {
            queue_size = v.queue_size;
            has_slots = v.has_slots;
            ring = v.ring;
            filled = filled;
          })
          turn.rotated in
      (
        s',
        total + length wcs,
        ap (after_send_poll d s continue) polls
            ∙ ap (after_refill d wcs (record s { queue = q }) continue) all_good
            ∙ run,
        omega (arith, many),
        v',
      )

  send_progress :
      (rounds : ℕ) (s : Client d) (total : ℕ)
      → IsSending d n s total
      → (s' : Client d) × (total' : ℕ) × (send d rounds s ≡ finished s')
        × (total + rounds ≤ total')
        × IsSending d n s' total'
  unfolding send
  send_progress zero s total v = (s, total, refl, omega arith, v)
  send_progress (suc rounds) s total v =
      let (s1, total1, e, more, v1) = round_taken s (λ s'. send d rounds s') total v in
      let (s', total', run, grown, v') = send_progress rounds s1 total1 v1 in
      (s', total', e ∙ run, omega arith, v')

  after_fill_progress :
      (t : Target) (queue : d.Q) (rounds : ℕ) (f : Filling)
      → d.outstanding queue ≡ []
      → IsFilled n 0 f
      → (s' : Client d) × (total : ℕ) × (after_fill d n (client_arrays n t) queue rounds (some f)
          ≡ finished s')
        × (rounds ≤ total)
        × IsSending d n s' total
  unfolding after_fill
  after_fill_progress t queue rounds f empty filled =
      let start : Client d = record {
        queue_size = n;
        buffers = (client_arrays n t).buffers;
        requests = (client_arrays n t).send_requests;
        queue = queue;
        filling = f;
      } in
      let (s1, e, v) =
        post_sends_taken 0 n start (λ s. send d rounds s) 0 pos pos (le_refl n)
          (record {
            queue_size = refl;
            has_slots = client_arrays-HasSlots n t;
            ring = client_arrays-IsRing n t;
            filled = filled;
          })
          (ap (λ l. l ++ window n 0 n) empty
            ∙ ap (λ h. window n h n) (let first : 0 ≡ 0 % n = omega arith in first)) in
      let (s', total, run, grown, v') = send_progress rounds s1 0 v in
      (s', total, e ∙ run, omega arith, v')

  -- On a device that keeps the order of its queue, starts with it empty, takes every request, and completes
  -- with success one at least in each poll while it has any, for any ring of n > 0 send requests: the client
  -- ends by its flag and not by a failure. It has completed a message at least for each round of its loop,
  -- all n requests are with the device, and the slot of the j-th of them holds the j-th message
  -- after those completed, every byte of it the low byte of its number.
  pub send_from_progress :
      (t : Target) (queue : d.Q) (rounds : ℕ)
      → d.outstanding queue ≡ []
      → (s' : Client d) × (total : ℕ) × (send_from d n (client_arrays n t) queue rounds
          ≡ finished s')
        × (rounds ≤ total)
        × IsSending d n s' total
  unfolding send_from
  send_from_progress t queue rounds empty =
      let (f, run, filled) =
        fill_all-IsFilled n pos (client_arrays n t).buffers (client_arrays-HasSlots n t) in
      let (s', total, e, grown, v) = after_fill_progress t queue rounds f empty filled in
      (s', total, ap (λ o. after_fill d n (client_arrays n t) queue rounds o) run ∙ e, grown, v)

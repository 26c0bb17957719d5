-- ===== src/RdmaServer.antt =====
-- rdma_server.c, from the end of `rdma_init_server` up to the clean-up: the receive requests of
-- the ring are posted, polled for and posted again.
pub mod Order
pub mod Rounds
pub mod Main
pub mod Refine
pub mod Live
pub mod Program
pub mod Command
mod Examples
mod Tests
use ibverb_prototype.Prelude.{
  ℕ, zero, suc, Bool, true, false, if◌then◌else◌, Option, none, some, List, [], ◌∷◌, ◌++◌, length,
  get_elem?,
}
use ibverb_prototype.Rdma.Request.{RecvWr, recv_linked}
use ibverb_prototype.Rdma.Post.{post}
use ibverb_prototype.Rdma.Buffers.{RecvBuffer, ServerArrays, server_arrays}
use ibverb_prototype.Rdma.Device.{Wc, Poll, poll_failed, polled, Device}

-- `completion_queue_size` of `main`.
abbrev pub completion_queue_size : ℕ
completion_queue_size = 100

-- A line "Message for WR #…": the request, where its first payload byte is read, and its length.
pub record Report : Type 0 where
  pub wr_id : ℕ
  pub offset : ℕ
  pub byte_len : ℕ

-- `printf` of a completion. `none` is an index outside `buffers`.
unfoldable pub report : List RecvBuffer → Wc → Option Report
report buffers wc = elim (get_elem? buffers wc.wr_id) [
  | none ↦ none
  | some b ↦ some (record { wr_id = wc.wr_id; offset = b.data_buffer; byte_len = wc.byte_len })
]

-- What the loop over the completions comes to: whether all have succeeded, and what was printed up
-- to the first that has not.
pub data Checked : Type 0 where
  checked : Bool → List Report → Checked
  outside : Checked

-- The body of the loop over the completions: the report, and whether the loop goes on.
unfoldable pub check_next : Option Report → List Report → Bool → (List Report → Checked) → Checked
check_next none reports success continue = outside
check_next (some r) reports success continue =
    let reports' = reports ++ (r ∷ []) in
    if success then continue reports' else checked false reports'

-- The loop over the completions, after it has printed `reports`.
unfoldable pub check : List RecvBuffer → List Report → List Wc → Checked
unfolding report check_next
check buffers reports [] = checked true reports
check buffers reports (wc ∷ wcs) =
    check_next (report buffers wc) reports wc.success (λ reports'. check buffers reports' wcs)

module _ (d : Device RecvWr) where
  -- `queue_size` is the static variable of rdma.c.
  pub record Server : Type 0 where
    pub queue_size : ℕ
    pub buffers : List RecvBuffer
    pub requests : List RecvWr
    pub queue : d.Q
    pub reports : List Report

  -- How `main` comes to its clean-up: with EXIT_SUCCESS after the flag was cleared, or with
  -- EXIT_FAILURE. `fault` is an access outside an array.
  pub data ServerEnd : Type 0 where
    finished : Server → ServerEnd
    failed : Server → ServerEnd
    fault : ServerEnd

  -- What follows a call of `post_recvs`: the clean-up if it failed.
  unfoldable pub after_post :
      Server → (Server → ServerEnd) → Option (Bool × List RecvWr × d.Q) → ServerEnd
  after_post s continue none = fault
  after_post s continue (some (true, requests, queue)) =
      continue (record s { requests = requests; queue = queue })
  after_post s continue (some (false, requests, queue)) =
      failed (record s { requests = requests; queue = queue })

  -- `post_recvs`, and what follows it.
  unfoldable pub post_recvs : ℕ → ℕ → Server → (Server → ServerEnd) → ServerEnd
  unfolding after_post
  post_recvs start count s continue =
      after_post s continue (post d.ibv_post s.queue_size start count s.requests s.queue)

  -- The loop's body after the completions are checked: they are posted again, from the first.
  unfoldable pub requeue : List Wc → Server → (Server → ServerEnd) → ServerEnd
  unfolding post_recvs
  requeue [] s continue = continue s
  requeue (wc ∷ wcs) s continue = post_recvs wc.wr_id (length (wc ∷ wcs)) s continue

  unfoldable pub after_check : List Wc → Server → (Server → ServerEnd) → Checked → ServerEnd
  unfolding requeue
  after_check wcs s continue outside = fault
  after_check wcs s continue (checked good reports) =
      let s' = record s { reports = reports } in if good then requeue wcs s' continue else failed s'

  unfoldable pub after_poll : Server → (Server → ServerEnd) → Poll × d.Q → ServerEnd
  unfolding after_check check
  after_poll s continue (poll_failed, queue) = failed (record s { queue = queue })
  after_poll s continue (polled wcs, queue) =
      after_check wcs (record s { queue = queue }) continue (check s.buffers s.reports wcs)

  -- `while (server_loop)`; the number is how often the test finds the flag set.
  unfoldable pub serve : ℕ → Server → ServerEnd
  unfolding after_poll
  serve zero s = finished s
  serve (suc rounds) s = after_poll s (λ s'. serve rounds s') (d.ibv_poll_cq 10 s.queue)

  -- `main` after `rdma_init_server` has returned, for a queue of n requests.
  unfoldable pub serve_from : ℕ → ServerArrays → d.Q → ℕ → ServerEnd
  unfolding serve
  serve_from n a queue rounds =
      let s : Server = record {
        queue_size = n;
        buffers = a.buffers;
        requests = a.recv_requests;
        queue = queue;
        reports = [];
      } in
      post_recvs 0 n s (λ s'. serve rounds s')

  unfoldable pub server_main : ℕ → ℕ → d.Q → ℕ → ServerEnd
  unfolding serve_from
  server_main header_key data_key queue rounds =
      serve_from completion_queue_size (server_arrays completion_queue_size header_key data_key)
        queue rounds

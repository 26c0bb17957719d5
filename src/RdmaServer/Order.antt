-- ===== src/RdmaServer/Order.antt =====
-- What holds of the server at the head of its loop and at its end, and the loop over the completions.
use ibverb_prototype.Prelude.{
  ℕ, suc, ◌+◌, ◌*◌, ◌%◌, ◌≤◌, ◌<◌, ◌≡◌, refl, sym, ap, ap₂, ◌∙◌, arith, Bool, true, false, some,
  List, [], ◌∷◌, ◌++◌, append_assoc, append-nil, map, length, get_elem?, All, All-append,
}
use native.Mathlib.Nat.{mod-lt, zero-add}
use ibverb_prototype.Packet.{msg_size}
use ibverb_prototype.Rdma.Request.{RecvWr, recv_linked}
use ibverb_prototype.Rdma.Post.Ring.{IsRing, window}
use ibverb_prototype.Rdma.Post.Window.{window-add}
use ibverb_prototype.Rdma.Buffers.{RecvBuffer}
use ibverb_prototype.Rdma.Polling.{ids}
use ibverb_prototype.Rdma.Device.{Wc, Device}
use ibverb_prototype.RdmaServer.{
  Report, report, check_next, Checked, checked, check, Server, ServerEnd, finished, failed, fault,
}

abbrev pub reported : List Report → List ℕ
reported = map (λ (r : Report). r.wr_id)

-- A report reads the first byte of the piece of the data buffer that belongs to its request.
abbrev pub IsPlaced : Report → Type 0
IsPlaced r = r.offset ≡ r.wr_id * msg_size

abbrev pub HasPieces : ℕ → List RecvBuffer → Type 0
HasPieces n buffers =
    (i : ℕ)
    → i < n
    → (b : RecvBuffer) × (get_elem? buffers i ≡ some b) × (b.data_buffer ≡ i * msg_size)

map-append_one :
    (rs : List Report) (r : Report) → reported (rs ++ (r ∷ [])) ≡ reported rs ++ (r.wr_id ∷ [])
map-append_one [] r = refl
map-append_one (x ∷ rs) r = ap (λ l. x.wr_id ∷ l) (map-append_one rs r)

-- What the loop over the completions prints: the requests from h on, all of them if all succeeded.
pub record IsCheck (n h : ℕ) (reports : List Report) (wcs : List Wc) (c : Checked) : Type 0 where
  pub good : Bool
  pub now : List Report
  pub result : c ≡ checked good now
  pub count : ℕ
  pub printed : reported now ≡ reported reports ++ window n h count
  pub placed : All IsPlaced now
  pub part : count ≤ length wcs
  pub complete : good ≡ true → count ≡ length wcs
  pub whole : All (λ (w : Wc). w.success ≡ true) wcs → good ≡ true

module _ (n : ℕ) (buffers : List RecvBuffer) (pieces : HasPieces n buffers) where
  report-piece :
      (wc : Wc)
      → wc.wr_id < n
      → (r : Report) × (report buffers wc ≡ some r) × (r.wr_id ≡ wc.wr_id) × IsPlaced r
  unfolding report
  report-piece wc inside =
      let (b, found, piece) = pieces wc.wr_id inside in
      (
        record { wr_id = wc.wr_id; offset = b.data_buffer; byte_len = wc.byte_len },
        rw (found, report) refl,
        refl,
        piece,
      )

  -- One completion, and then those after it.
  check_next-IsCheck :
      (h : ℕ) (reports : List Report) (success : Bool) (wc : Wc) (wcs : List Wc) (r : Report)
      (continue : List Report → Checked)
      → wc.success ≡ success
      → r.wr_id ≡ h
      → All IsPlaced (reports ++ (r ∷ []))
      → IsCheck n ((h + 1) % n) (reports ++ (r ∷ [])) wcs (continue (reports ++ (r ∷ [])))
      → IsCheck n h reports (wc ∷ wcs) (check_next (some r) reports success continue)
  unfolding check_next
  check_next-IsCheck h reports true wc wcs r continue same e p later = record {
    good = later.good;
    now = later.now;
    result = later.result;
    count = suc later.count;
    printed =
        later.printed
        ∙ ap (λ l. l ++ window n ((h + 1) % n) later.count)
            (map-append_one reports r ∙ ap (λ i. reported reports ++ (i ∷ [])) e)
        ∙ append_assoc (reported reports) (h ∷ []) (window n ((h + 1) % n) later.count);
    placed = later.placed;
    part = omega (arith, later.part);
    complete = λ g. ap suc (later.complete g);
    whole = λ a. later.whole a.1;
  }
  check_next-IsCheck h reports false wc wcs r continue same e p later = record {
    good = false;
    now = reports ++ (r ∷ []);
    result = refl;
    count = 1;
    printed = map-append_one reports r ∙ ap (λ i. reported reports ++ (i ∷ [])) e;
    placed = p;
    part = omega arith;
    complete = λ g. absurd (let clash : ⊥ = cc in clash);
    whole = λ a. absurd (let good : wc.success ≡ true = a.0 in let clash : ⊥ = cc in clash);
  }

  pub check-IsCheck :
      (wcs : List Wc) (h : ℕ) (reports : List Report)
      → h < n
      → ids wcs ≡ window n h (length wcs)
      → All IsPlaced reports
      → IsCheck n h reports wcs (check buffers reports wcs)
  unfolding check
  check-IsCheck [] h reports inside e p = record {
    good = true;
    now = reports;
    result = refl;
    count = 0;
    printed = sym (append-nil (reported reports));
    placed = p;
    part = omega arith;
    complete = λ g. refl;
    whole = λ a. refl;
  }
  check-IsCheck (wc ∷ wcs) h reports inside e p =
      let first : wc.wr_id ≡ h = cc in
      let (r, found, named, placed) = report-piece wc (omega arith) in
      let p' = All-append IsPlaced reports (r ∷ []) p (placed, tt) in
      rw (ap (λ o. check_next o reports wc.success (λ reports'. check buffers reports' wcs)) found)
        (check_next-IsCheck h reports wc.success wc wcs r (λ reports'. check buffers reports' wcs)
          refl (named ∙ first) p'
          (check-IsCheck wcs ((h + 1) % n) (reports ++ (r ∷ [])) (mod-lt (h + 1) (omega arith)) (cc)
            p'))

module _ (d : Device RecvWr) (n : ℕ) where
  -- At the head of the loop, after `total` completions: every request of the ring is with the
  -- device, from the next one on.
  pub record IsServing (s : Server d) (total : ℕ) : Type 0 where
    pub queue_size : s.queue_size ≡ n
    pub pieces : HasPieces n s.buffers
    pub ring : IsRing n s.requests
    pub posted : d.outstanding s.queue ≡ window n (total % n) n
    pub printed : reported s.reports ≡ window n 0 total
    pub placed : All IsPlaced s.reports

  -- What an ending shows: the requests 0, 1, 2, … round the ring were reported, in this order,
  -- each with its own piece of the buffer.
  abbrev pub IsOrdered : ServerEnd d → Type 0
  IsOrdered (finished s) = (total : ℕ) × IsServing s total
  IsOrdered (failed s) =
      (total : ℕ) × (reported s.reports ≡ window n 0 total) × All IsPlaced s.reports
  IsOrdered fault = ⊥

  -- What holds of a state between a poll and the posting that follows it.
  pub record IsReady (s : Server d) (total : ℕ) : Type 0 where
    pub queue_size : s.queue_size ≡ n
    pub pieces : HasPieces n s.buffers
    pub ring : IsRing n s.requests
    pub printed : reported s.reports ≡ window n 0 total
    pub placed : All IsPlaced s.reports

  pub reported-window :
      0 < n
      → (total count : ℕ) (now before : List Report) → reported before ≡ window n 0 total
      → reported now ≡ reported before ++ window n (total % n) count
      → reported now ≡ window n 0 (total + count)
  reported-window pos total count now before b e =
      e
      ∙ ap₂ (λ l h. l ++ window n (h % n) count) b (sym (zero-add total))
      ∙ window-add n 0 total count (omega arith)

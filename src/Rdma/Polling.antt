-- ===== src/Rdma/Polling.antt =====
-- What one poll of a full ring gives back, on a device that keeps the order of its queue.
use ibverb_prototype.Prelude.{
  suc, refl, ℕ, ◌+◌, ◌-◌, ◌%◌, ◌≤◌, ◌<◌, ◌≡◌, sym, ap, ◌∙◌, arith, List, [], ◌∷◌, ◌++◌, map, length,
}
use native.Mathlib.Nat.{mod-lt, mod-add-mod}
use ibverb_prototype.Rdma.Post.Ring.{window}
use ibverb_prototype.Rdma.Post.Window.{window-cut, window_rotate}
use ibverb_prototype.Rdma.Device.{Wc, polled, Device, IsFifo}

abbrev pub ids : List Wc → List ℕ
ids = map (λ (w : Wc). w.wr_id)

length-ids : (wcs : List Wc) → length (ids wcs) ≡ length wcs
length-ids [] = refl
length-ids (wc ∷ wcs) = ap suc (length-ids wcs)

-- The completions are the next ones round the ring; posted again, they complete it from the next one on.
pub record IsTurn (n total : ℕ) (outstanding : List ℕ) (wcs : List Wc) : Type 0 where
  pub named : ids wcs ≡ window n (total % n) (length wcs)
  pub fits : length wcs ≤ n
  pub rotated :
      outstanding ++ window n (total % n) (length wcs) ≡ window n ((total + length wcs) % n) n

pub polled-IsTurn {ℓ} :
    {A : Type ℓ} (id : A → ℕ) (d : Device A) (fifo : IsFifo id d) (n total limit : ℕ) (q q' : d.Q)
    (wcs : List Wc)
    → 0 < n
    → d.outstanding q ≡ window n (total % n) n
    → d.ibv_poll_cq limit q ≡ (polled wcs, q')
    → IsTurn n total (d.outstanding q') wcs
polled-IsTurn id d fifo n total limit q q' wcs pos posted e =
    let h : ℕ = total % n in
    let inside : h < n = mod-lt total (omega arith) in
    let order = fifo.poll_order limit q q' wcs e in
    let parts = window-cut n h n (ids wcs) (d.outstanding q') inside (sym posted ∙ order.0) in
    let counted : length (ids wcs) ≡ length wcs = length-ids wcs in
    let fits : length wcs ≤ n = omega arith in
    record {
      named = parts.0 ∙ ap (window n h) counted;
      fits = fits;
      rotated =
          ap (λ l. l ++ window n h (length wcs))
            (parts.1 ∙ ap (λ m. window n ((h + m) % n) (n - m)) counted)
          ∙ window_rotate n h (length wcs) inside fits
          ∙ ap (λ g. window n g n) (mod-add-mod total n (length wcs));
    }

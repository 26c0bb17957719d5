-- ===== src/RdmaClient/Refill.antt =====
-- The client's loop over the completions, which fills their slots anew.
use ibverb_prototype.Prelude.{
  ℕ, suc, ◌+◌, ◌%◌, ◌<◌, ◌≡◌, refl, ap, ◌∙◌, arith, Bool, true, false, some, List, [], ◌∷◌, length,
}
use native.Mathlib.Nat.{mod-add-mod}
use ibverb_prototype.Rdma.Request.{send_linked}
use ibverb_prototype.Rdma.Post.Ring.{window}
use ibverb_prototype.Rdma.Polling.{ids}
use ibverb_prototype.Rdma.Buffers.{SendBuffer}
use ibverb_prototype.Rdma.Device.{Wc}
use ibverb_prototype.RdmaClient.{Filling, Refilled, refilled, refill_next, refill}
use ibverb_prototype.RdmaClient.Fill.{HasSlots, IsFilled, fill_slot-IsFilled}

-- What the loop over the completions leaves: one message more for each that has succeeded.
pub record IsRefill (n total : ℕ) (wcs : List Wc) (c : Refilled) : Type 0 where
  pub good : Bool
  pub now : Filling
  pub result : c ≡ refilled good now
  pub count : ℕ
  pub filled : IsFilled n (total + count) now
  pub complete : good ≡ true → count ≡ length wcs

module _ (n : ℕ) (pos : 0 < n) (buffers : List SendBuffer) (has_slots : HasSlots n buffers) where
  refill_next-IsRefill :
      (total : ℕ) (success : Bool) (f f' : Filling) (wc : Wc) (wcs : List Wc)
      (continue : Filling → Refilled)
      → IsFilled n total f
      → IsRefill n (total + 1) wcs (continue f')
      → IsRefill n total (wc ∷ wcs) (refill_next success f (some f') continue)
  unfolding refill_next
  refill_next-IsRefill total true f f' wc wcs continue v later = record {
    good = later.good;
    now = later.now;
    result = later.result;
    count = suc later.count;
    filled =
        let e : total + 1 + later.count ≡ total + suc later.count = omega arith in
        rw (← e) later.filled;
    complete = λ g. ap suc (later.complete g);
  }
  refill_next-IsRefill total false f f' wc wcs continue v later = record {
    good = false;
    now = f;
    result = refl;
    count = 0;
    filled = let e : total ≡ total + 0 = omega arith in rw (← e) v;
    complete = λ g. absurd (let clash : ⊥ = cc in clash);
  }

  pub refill-IsRefill :
      (wcs : List Wc) (total : ℕ) (f : Filling)
      → ids wcs ≡ window n (total % n) (length wcs)
      → IsFilled n total f
      → IsRefill n total wcs (refill buffers wcs f)
  unfolding refill
  refill-IsRefill [] total f e v = record {
    good = true;
    now = f;
    result = refl;
    count = 0;
    filled = let e : total ≡ total + 0 = omega arith in rw (← e) v;
    complete = λ g. refl;
  }
  refill-IsRefill (wc ∷ wcs) total f e v =
      let first : wc.wr_id ≡ total % n = cc in
      let (f', run, v') = fill_slot-IsFilled n pos buffers has_slots total wc.wr_id f v first in
      let rest : ids wcs ≡ window n ((total % n + 1) % n) (length wcs) = cc in
      rw (ap (λ o. refill_next wc.success f o (λ f'. refill buffers wcs f')) run) (
        refill_next-IsRefill total wc.success f f' wc wcs (λ f'. refill buffers wcs f') v
          (refill-IsRefill wcs (total + 1) f'
            (rest ∙ ap (λ h. window n h (length wcs)) (mod-add-mod total n 1)) v'))

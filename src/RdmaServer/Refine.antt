-- ===== src/RdmaServer/Refine.antt =====
-- The server as an implementation of a counter of messages.
use ibverb_prototype.Prelude.{ℕ, zero, suc, ◌+◌, ◌≤◌, ◌≡◌, All}
use ibverb_prototype.Rdma.Request.{RecvWr}
use ibverb_prototype.Rdma.Post.Ring.{window}
use ibverb_prototype.Rdma.Device.{Device}
use ibverb_prototype.RdmaServer.{ServerEnd, finished, failed}
use ibverb_prototype.RdmaServer.Order.{reported, IsPlaced, IsServing}

-- The counter: it runs and has counted so many messages, or it has stopped early, or at the end.
pub data Counter : Type 0 where
  counting stopped over : (messages : ℕ) → Counter

-- What the counter may do: count some messages, ten at most, and go on or stop. It stops before it
-- has counted any only if it cannot start.
pub data Count : Counter → Counter → Type 0 where
  count_on :
      (total count : ℕ)
      → count ≤ 10
      → Count (Counter.counting total) (Counter.counting (total + count))
  stop :
      (total count : ℕ)
      → count ≤ 10
      → Count (Counter.counting total) (Counter.stopped (total + count))
  end : (total : ℕ) → Count (Counter.counting total) (Counter.over total)

-- A run of so many steps.
pub data Counts : ℕ → Counter → Counter → Type 0 where
  still : (c : Counter) → Counts zero c c
  then : (steps : ℕ) (a b c : Counter) → Count a b → Counts steps b c → Counts (suc steps) a c

module _ (d : Device RecvWr) (n : ℕ) where
  -- An end of the server for a state of the counter: it has reported the messages counted, in the order of the
  -- ring, and when it was stopped by the flag all requests are with the device again.
  pub Implements : ServerEnd d → Counter → Type 0
  Implements (finished s) (Counter.over total) = IsServing d n s total
  Implements (failed s) (Counter.stopped total) =
      (reported s.reports ≡ window n 0 total) × All IsPlaced s.reports
  Implements _ _ = ⊥

  -- An end that the counter reaches from a number of messages, in a step for each round of the loop and one
  -- more at most.
  pub IsCounted : ℕ → ℕ → ServerEnd d → Type 0
  IsCounted rounds total e =
      (steps : ℕ) × (c : Counter) × (steps ≤ rounds + 1)
      × Counts steps (Counter.counting total) c
      × Implements e c

-- ===== src/RdmaClient/Command.antt =====
-- `main` of rdma_client.c: the number of arguments and what they are read as, the signal handler, and
-- the rest.
use ibverb_prototype.Prelude.{
  ℕ, bits, ◌≡◌, ◌≢◌, ◌⊎◌, refl, inl, inr, arith, Bool, true, false, if◌then◌else◌, List, [], ◌∷◌,
  length,
}
use ibverb_prototype.Signals.{loop_rounds}
use ibverb_prototype.Rdma.Request.{SendWr}
use ibverb_prototype.Rdma.Device.{Device, IsFifo}
use ibverb_prototype.Rdma.Setup.State.{Resource, Env, Ending}
use ibverb_prototype.RdmaClient.{ClientEnd}
use ibverb_prototype.RdmaClient.Program.{client_program, IsClientRun, client_program-IsClientRun}

-- What the C library makes of the arguments: `atoi`, and the bytes of `gid` after `inet_pton`, whose
-- result the program does not look at.
pub record Parsers : Type 0 where
  pub atoi : List ℕ → ℕ
  pub gid_after : List ℕ → List ℕ

-- How `main` ends: by one of the returns before the set-up, or as `client_program` does.
pub data CommandRun (d : Device SendWr) : Type 0 where
  refused : CommandRun d
  ran : Ending (ClientEnd d) → CommandRun d

module _ (env : Env) (parse : Parsers) (d : Device SendWr) where
  -- `handler` is whether `sigaction` succeeds, `signals` when SIGINT comes. The queue pair's number becomes a `uint32_t`.
  unfoldable pub client_command : List (List ℕ) → Bool → d.Q → List Bool → CommandRun d
  unfolding client_program loop_rounds
  client_command (program ∷ dev_name ∷ gid ∷ lid ∷ qp ∷ []) handler queue signals =
      if handler
      then ran (
          client_program env d dev_name (parse.atoi lid) (parse.gid_after gid)
            (bits 32 (parse.atoi qp)) queue (loop_rounds signals))
      else refused
  client_command _ handler queue signals = refused

  -- The program runs if it has four arguments and its handler is installed.
  unfoldable pub IsCommandRun : List (List ℕ) → Bool → CommandRun d → Type 0
  unfolding IsClientRun
  IsCommandRun args handler refused = (length args ≢ 5) ⊎ (handler ≡ false)
  IsCommandRun args handler (ran e) = (length args ≡ 5) × (handler ≡ true) × IsClientRun env d e

module _ (env : Env) (parse : Parsers) (closes : (r : Resource) → env.releases r ≡ true)
    (d : Device SendWr) (fifo : IsFifo (λ (r : SendWr). r.wr_id) d) where
  -- `main` of the client, on a device that keeps the order of its queue and starts with it empty, and with
  -- libraries whose releases succeed, for any arguments and whenever SIGINT comes. It ends before the
  -- set-up exactly if there are not four arguments or the signal handler cannot be installed. Otherwise,
  -- if it returns, then no array or buffer was accessed outside its bounds; the slots of the buffer hold
  -- 20 consecutive messages in the order of the ring, which on success are those of the 20 requests that
  -- are with the device; the queue pair was ready to send, by legal changes of its state; and everything
  -- that was acquired is released, in an order in which nothing that is still held rests on what is
  -- released. If the set-up exits, then everything is released but the device when no protection domain
  -- could be allocated, and the result array when one of the two arrays after it could not.
  pub client_command-IsCommandRun :
      (args : List (List ℕ)) (handler : Bool) (queue : d.Q) (signals : List Bool)
      → d.outstanding queue ≡ []
      → IsCommandRun env parse d args handler
          (client_command env parse d args handler queue signals)
  unfolding client_command IsCommandRun
  client_command-IsCommandRun [] handler queue signals empty = inl (omega arith)
  client_command-IsCommandRun (a ∷ []) handler queue signals empty = inl (omega arith)
  client_command-IsCommandRun (a ∷ b ∷ []) handler queue signals empty = inl (omega arith)
  client_command-IsCommandRun (a ∷ b ∷ c ∷ []) handler queue signals empty = inl (omega arith)
  client_command-IsCommandRun (a ∷ b ∷ c ∷ e ∷ []) handler queue signals empty = inl (omega arith)
  client_command-IsCommandRun (a ∷ b ∷ c ∷ e ∷ f ∷ []) false queue signals empty = inr refl
  client_command-IsCommandRun (program ∷ dev_name ∷ gid ∷ lid ∷ qp ∷ []) true queue signals empty =
      (
        refl,
        refl,
        client_program-IsClientRun env closes d fifo dev_name (parse.atoi lid) (parse.gid_after gid)
            (bits 32 (parse.atoi qp)) queue (loop_rounds signals) empty,
      )
  client_command-IsCommandRun (a ∷ b ∷ c ∷ e ∷ f ∷ g ∷ args) handler queue signals empty =
      inl (omega arith)

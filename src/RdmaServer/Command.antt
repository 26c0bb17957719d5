-- ===== src/RdmaServer/Command.antt =====
-- `main` of rdma_server.c: the number of arguments, the signal handler, and the rest.
use ibverb_prototype.Prelude.{
  ℕ, ◌≡◌, ◌≢◌, ◌⊎◌, refl, inl, inr, arith, Bool, true, false, if◌then◌else◌, List, [], ◌∷◌, length,
}
use ibverb_prototype.Signals.{loop_rounds}
use ibverb_prototype.Rdma.Request.{RecvWr}
use ibverb_prototype.Rdma.Device.{Device, IsFifo}
use ibverb_prototype.Rdma.Setup.State.{Resource, Env, Ending}
use ibverb_prototype.RdmaServer.{ServerEnd}
use ibverb_prototype.RdmaServer.Program.{server_program, IsServed, server_program-IsServed}

-- How `main` ends: by one of the returns before the set-up, or as `server_program` does.
pub data ServerRun (d : Device RecvWr) : Type 0 where
  refused : ServerRun d
  ran : Ending (ServerEnd d) → ServerRun d

module _ (env : Env) (d : Device RecvWr) where
  -- `handler` is whether `sigaction` succeeds, `signals` when SIGINT comes.
  unfoldable pub server_command : List (List ℕ) → Bool → d.Q → List Bool → ServerRun d
  unfolding server_program loop_rounds
  server_command (program ∷ dev_name ∷ []) handler queue signals =
      if handler then ran (server_program env d dev_name queue (loop_rounds signals)) else refused
  server_command _ handler queue signals = refused

  -- The program runs if it has one argument and its handler is installed.
  unfoldable pub IsServerRun : List (List ℕ) → Bool → ServerRun d → Type 0
  unfolding IsServed
  IsServerRun args handler refused = (length args ≢ 2) ⊎ (handler ≡ false)
  IsServerRun args handler (ran e) = (length args ≡ 2) × (handler ≡ true) × IsServed env d e

module _ (env : Env) (closes : (r : Resource) → env.releases r ≡ true) (d : Device RecvWr)
    (fifo : IsFifo (λ (r : RecvWr). r.wr_id) d) where
  -- `main` of the server, on a device that keeps the order of its queue and starts with it empty, and with
  -- libraries whose releases succeed, for any arguments and whenever SIGINT comes. It ends before the
  -- set-up exactly if there is not one argument or the signal handler cannot be installed. Otherwise,
  -- if it returns, it has reported the completions of requests 0, 1, …, 99, 0, 1, … in this order, each
  -- with its own piece of the data buffer; the queue pair was ready to receive, by legal changes of its
  -- state; everything that was acquired is released, in an order in which nothing that is still held
  -- rests on what is released; and no array was accessed outside its bounds. If the set-up exits, then
  -- everything is released but the device when no protection domain could be allocated, and the
  -- result array when one of the two arrays after it could not.
  pub server_command-IsServerRun :
      (args : List (List ℕ)) (handler : Bool) (queue : d.Q) (signals : List Bool)
      → d.outstanding queue ≡ []
      → IsServerRun env d args handler (server_command env d args handler queue signals)
  unfolding server_command IsServerRun
  server_command-IsServerRun [] handler queue signals empty = inl (omega arith)
  server_command-IsServerRun (program ∷ []) handler queue signals empty = inl (omega arith)
  server_command-IsServerRun (program ∷ dev_name ∷ []) false queue signals empty = inr refl
  server_command-IsServerRun (program ∷ dev_name ∷ []) true queue signals empty = (
    refl,
    refl,
    server_program-IsServed env closes d fifo dev_name queue (loop_rounds signals) empty,
  )
  server_command-IsServerRun (program ∷ dev_name ∷ more ∷ args) handler queue signals empty =
      inl (omega arith)

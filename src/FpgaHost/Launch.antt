-- ===== src/FpgaHost/Launch.antt =====
-- The turns of the two queues, from the copy to the end of the kernel.
use ibverb_prototype.Prelude.{
  ℕ, ◌≡◌, refl, Bool, Bool-cases, inl, inr, true, false, if◌then◌else◌, Option, List, [], ◌∷◌, ◌++◌,
  All, memcpy,
}
use ibverb_prototype.Kernel.{ChannelLine}
use ibverb_prototype.OpenCl.{Arg, Command, Board}
use ibverb_prototype.OpenCl.Queues.{Queue, run_kernel, run_turns, drain}

abbrev pub Output : Type 0
Output = List (Option (List ChannelLine))

-- A board by its parts.
abbrev pub board : List ℕ → List ℕ → List Command → List Command → Output → Board
board h d own launched sent = record {
  host_mem = h;
  device_mem = d;
  own = own;
  launched = launched;
  sent = sent;
}

-- Whether the program's own queue gets a turn, and whether it gets the first.
unfoldable pub any_own : List Queue → Bool
any_own [] = false
any_own (Queue.own_queue ∷ qs) = true
any_own (Queue.kernel_queue ∷ qs) = any_own qs

unfoldable pub own_first : List Queue → Bool
own_first [] = false
own_first (Queue.own_queue ∷ qs) = true
own_first (Queue.kernel_queue ∷ qs) = false

-- A command that runs no kernel.
abbrev pub IsPlain : Command → Type 0
IsPlain (Command.copy_buffer n) = Unit
IsPlain Command.unmap = Unit
IsPlain (Command.nd_range args) = ⊥

-- The turns, and then a wait for the kernel's queue.
unfoldable pub settle : List ℕ → List Queue → Board → Board
unfolding run_turns drain
settle scratch qs b = let b' = run_turns scratch qs b in drain scratch b'.launched b'

module _ (scratch : List ℕ) (h : List ℕ) where
  pub run_turns_idle :
      (qs : List Queue) (d : List ℕ) (sent : Output)
      → run_turns scratch qs (board h d [] [] sent) ≡ board h d [] [] sent
  unfolding run_turns
  run_turns_idle [] d sent = refl
  run_turns_idle (Queue.own_queue ∷ qs) d sent = run_turns_idle qs d sent
  run_turns_idle (Queue.kernel_queue ∷ qs) d sent = run_turns_idle qs d sent

  -- Commands that run no kernel write nothing.
  pub run_turns_plain :
      (qs : List Queue) (d : List ℕ) (own : List Command) (sent : Output)
      → All IsPlain own
      → (run_turns scratch qs (board h d own [] sent)).sent ≡ sent
  unfolding run_turns
  run_turns_plain [] d own sent p = refl
  run_turns_plain (Queue.kernel_queue ∷ qs) d own sent p = run_turns_plain qs d own sent p
  run_turns_plain (Queue.own_queue ∷ qs) d [] sent p = run_turns_plain qs d [] sent p
  run_turns_plain (Queue.own_queue ∷ qs) d (Command.copy_buffer n ∷ own) sent p =
      run_turns_plain qs (memcpy d h n) own sent p.1
  run_turns_plain (Queue.own_queue ∷ qs) d (Command.unmap ∷ own) sent p =
      run_turns_plain qs d own sent p.1
  run_turns_plain (Queue.own_queue ∷ qs) d (Command.nd_range args ∷ own) sent p = absurd p.0

  module _ (n : ℕ) where
    -- The board after the turns that follow the copy's being enqueued.
    pub run_turns_copy :
        (qs : List Queue) (d : List ℕ) (sent : Output)
        → run_turns scratch qs (board h d (Command.copy_buffer n ∷ []) [] sent) ≡ (
            if any_own qs
            then board h (memcpy d h n) [] [] sent
            else board h d (Command.copy_buffer n ∷ []) [] sent)
    unfolding run_turns any_own
    run_turns_copy [] d sent = refl
    run_turns_copy (Queue.own_queue ∷ qs) d sent = run_turns_idle qs (memcpy d h n) sent
    run_turns_copy (Queue.kernel_queue ∷ qs) d sent = run_turns_copy qs d sent

    module _ (args : ℕ → Option Arg) where
      abbrev pub kernel_output : List ℕ → Option (List ChannelLine)
      unfolding run_kernel
      kernel_output d = run_kernel scratch d (args 0) (args 1) (args 2) (args 3)

      -- Without a copy that waits the kernel reads the memory as it is.
      pub settle_copied :
          (qs : List Queue) (d : List ℕ) (sent : Output)
          → settle scratch qs (board h d [] (Command.nd_range args ∷ []) sent)
            ≡ board h d [] [] (sent ++ (kernel_output d ∷ []))
      unfolding settle
      settle_copied [] d sent = refl
      settle_copied (Queue.own_queue ∷ qs) d sent = settle_copied qs d sent
      settle_copied (Queue.kernel_queue ∷ qs) d sent =
          rw (run_turns_idle qs d (sent ++ (kernel_output d ∷ []))) refl

      -- With one, it depends on the first turn.
      pub settle_waiting :
          (qs : List Queue) (d : List ℕ) (sent : Output)
          → (d' : List ℕ) × (own : List Command) × All IsPlain own
            × (settle scratch qs
                  (board h d (Command.copy_buffer n ∷ []) (Command.nd_range args ∷ []) sent)
                ≡ board h d' own []
                    (sent ++ (kernel_output (if own_first qs then memcpy d h n else d) ∷ [])))
      unfolding settle own_first
      settle_waiting [] d sent = (d, Command.copy_buffer n ∷ [], (tt, tt), refl)
      settle_waiting (Queue.own_queue ∷ qs) d sent =
          (memcpy d h n, [], tt, settle_copied qs (memcpy d h n) sent)
      settle_waiting (Queue.kernel_queue ∷ qs) d sent = elim (Bool-cases (any_own qs)) [
        | inl any ↦ (
          memcpy d h n,
          [],
          tt,
          rw (run_turns_copy qs d (sent ++ (kernel_output d ∷ [])), any) refl,
        )
        | inr none_at_all ↦ (
          d,
          Command.copy_buffer n ∷ [],
          (tt, tt),
          rw (run_turns_copy qs d (sent ++ (kernel_output d ∷ [])), none_at_all) refl,
        )
      ]

-- ===== src/FpgaHost/Phases.antt =====
-- The board of fpga_host.cc from the launch of the kernel to its end, whichever turns the queues take.
use ibverb_prototype.Prelude.{
  ℕ, ◌+◌, ◌≡◌, refl, sym, ap, subst, ◌∙◌, ◌⊎◌, inl, inr, Option, List, [], ◌∷◌, ◌++◌, All, memcpy,
}
use ibverb_prototype.RawIbverbs.{total_header_size}
use ibverb_prototype.Kernel.{ChannelLine, write_ibverb_packet}
use ibverb_prototype.OpenCl.{
  ClError, Answer, done, raised, Arg, Call, Runtime, Command, Board, and_then,
}
use ibverb_prototype.OpenCl.Queues.{Queue, run_turns, run_next, run_kernel, drain}
use ibverb_prototype.OpenCl.Wrapper.{ClKernel, set_args_n, assign}
use ibverb_prototype.OpenCl.Args.{Answer-cases}
use ibverb_prototype.FpgaHost.Launch.{board, Output, IsPlain}

-- The arguments of a list, from an index on.
unfoldable pub assign_all : ℕ → ClKernel → List Arg → ClKernel
unfolding assign
assign_all n k [] = k
assign_all n k (a ∷ rest) = assign_all (n + 1) (assign n a k) rest

pub set_args_n-assign_all :
    (rt : Runtime) (n : ℕ) (k : ClKernel) (args : List Arg)
    → (set_args_n rt n k args ≡ done (assign_all n k args))
      ⊎ ((e : ClError) × (set_args_n rt n k args ≡ raised e))
unfolding set_args_n assign_all
set_args_n-assign_all rt n k [] = inl refl
set_args_n-assign_all rt n k (a ∷ rest) =
    let later = set_args_n-assign_all rt (n + 1) (assign n a k) rest in
    let set : Answer (Unit {0}) → Answer ClKernel =
      λ answer. and_then answer (λ _. set_args_n rt (n + 1) (assign n a k) rest) in
    elim (Answer-cases (rt.answers (Call.set_arg n a))) [
      | inl (x, e) ↦ elim later [
        | inl ok ↦ inl (ap set e ∙ ok)
        | inr (err, bad) ↦ inr (err, ap set e ∙ bad)
      ]
      | inr (err, e) ↦ inr (err, ap set e)
    ]

-- What the kernel writes over a memory, and the device's memory after the copy.
unfoldable pub frame_of : List ℕ → ℕ → List ℕ → Option (List ChannelLine)
frame_of scratch crc mem = write_ibverb_packet mem crc total_header_size scratch

unfoldable pub copied_mem : List ℕ → List ℕ → List ℕ
copied_mem h old = memcpy old h total_header_size

-- The memory of the host's buffer and of the device's before the copy, and what was sent before the loop.
module _ (scratch : List ℕ) (crc : ℕ) (h old : List ℕ) (sent : Output) where
  -- One packet, of the old bytes of the device's buffer or of the host's bytes.
  unfoldable pub IsOne : Output → Type 0
  IsOne out =
      (out ≡ sent ++ (frame_of scratch crc old ∷ []))
      ⊎ (out ≡ sent ++ (frame_of scratch crc (copied_mem h old) ∷ []))

  -- The board from the launch on: the copy and the kernel wait, the kernel waits, or it has run.
  pub data Phase : (ℕ → Option Arg) → Board → Type 0 where
    both_wait :
        (args : ℕ → Option Arg) (b : Board)
        → b
          ≡ board h old
              (Command.copy_buffer total_header_size ∷ [])
              (Command.nd_range args ∷ [])
              sent
        → Phase args b
    kernel_waits :
        (args : ℕ → Option Arg) (b : Board)
        → b ≡ board h (copied_mem h old) [] (Command.nd_range args ∷ []) sent
        → Phase args b
    over :
        (args : ℕ → Option Arg) (b : Board) (mem : List ℕ) (own : List Command) (out : Output)
        → All IsPlain own
        → IsOne out
        → b ≡ board h mem own [] out
        → Phase args b

  pub Phase-sent :
      (args : ℕ → Option Arg) (b : Board) → Phase args b → (b.sent ≡ sent) ⊎ IsOne b.sent
  Phase-sent args b (Phase.both_wait _ _ e) = inl (ap (λ (c : Board). c.sent) e)
  Phase-sent args b (Phase.kernel_waits _ _ e) = inl (ap (λ (c : Board). c.sent) e)
  Phase-sent args b (Phase.over _ _ mem own out p one e) =
      inr (subst (λ (c : Board). IsOne c.sent) (sym e) one)

  module _ (args : ℕ → Option Arg)
      (runs : (mem : List ℕ)
        → run_kernel scratch mem (args 0) (args 1) (args 2) (args 3)
          ≡ frame_of scratch crc mem) where
    one_of :
        (mem : List ℕ)
        → sent ++ (run_kernel scratch mem (args 0) (args 1) (args 2) (args 3) ∷ [])
          ≡ sent ++ (frame_of scratch crc mem ∷ [])
    one_of mem = ap (λ o. sent ++ (o ∷ [])) (runs mem)

    run_next-Phase : (q : Queue) (b : Board) → Phase args b → Phase args (run_next scratch q b)
    unfolding run_next IsOne copied_mem
    run_next-Phase Queue.own_queue b (Phase.both_wait _ _ e) =
        subst (λ c. Phase args (run_next scratch Queue.own_queue c)) (sym e)
          (Phase.kernel_waits args _ refl)
    run_next-Phase Queue.kernel_queue b (Phase.both_wait _ _ e) =
        subst (λ c. Phase args (run_next scratch Queue.kernel_queue c)) (sym e)
          (Phase.over args _ old (Command.copy_buffer total_header_size ∷ []) _ (tt, tt)
            (inl (one_of old)) refl)
    run_next-Phase Queue.own_queue b (Phase.kernel_waits _ _ e) =
        subst (λ c. Phase args (run_next scratch Queue.own_queue c)) (sym e)
          (Phase.kernel_waits args _ refl)
    run_next-Phase Queue.kernel_queue b (Phase.kernel_waits _ _ e) =
        subst (λ c. Phase args (run_next scratch Queue.kernel_queue c)) (sym e)
          (Phase.over args _ (copied_mem h old) [] _ tt (inr (one_of (copied_mem h old))) refl)
    run_next-Phase Queue.kernel_queue b (Phase.over _ _ mem own out p one e) =
        subst (λ c. Phase args (run_next scratch Queue.kernel_queue c)) (sym e)
          (Phase.over args _ mem own out p one refl)
    run_next-Phase Queue.own_queue b (Phase.over _ _ mem [] out p one e) =
        subst (λ c. Phase args (run_next scratch Queue.own_queue c)) (sym e)
          (Phase.over args _ mem [] out p one refl)
    run_next-Phase Queue.own_queue b
          (Phase.over _ _ mem (Command.copy_buffer n ∷ own) out p one e) =
        subst (λ c. Phase args (run_next scratch Queue.own_queue c)) (sym e)
          (Phase.over args _ (memcpy mem h n) own out p.1 one refl)
    run_next-Phase Queue.own_queue b (Phase.over _ _ mem (Command.unmap ∷ own) out p one e) =
        subst (λ c. Phase args (run_next scratch Queue.own_queue c)) (sym e)
          (Phase.over args _ mem own out p.1 one refl)
    run_next-Phase Queue.own_queue b (Phase.over _ _ mem (Command.nd_range k ∷ own) out p one e) =
        absurd p.0

    pub run_turns-Phase :
        (qs : List Queue) (b : Board) → Phase args b → Phase args (run_turns scratch qs b)
    unfolding run_turns
    run_turns-Phase [] b p = p
    run_turns-Phase (q ∷ qs) b p = run_turns-Phase qs (run_next scratch q b) (run_next-Phase q b p)

    -- After the wait the kernel has run.
    pub drain-IsOne :
        (b : Board)
        → Phase args b
        → (mem : List ℕ) × (own : List Command) × (out : Output) × All IsPlain own
          × IsOne out
          × (drain scratch b.launched b ≡ board h mem own [] out)
    unfolding drain IsOne copied_mem
    drain-IsOne b (Phase.both_wait _ _ e) = (
      old,
      Command.copy_buffer total_header_size ∷ [],
      _,
      (tt, tt),
      inl (one_of old),
      ap (λ (c : Board). drain scratch c.launched c) e,
    )
    drain-IsOne b (Phase.kernel_waits _ _ e) = (
      (copied_mem h old),
      [],
      _,
      tt,
      inr (one_of (copied_mem h old)),
      ap (λ (c : Board). drain scratch c.launched c) e,
    )
    drain-IsOne b (Phase.over _ _ mem own out p one e) =
        (mem, own, out, p, one, ap (λ (c : Board). drain scratch c.launched c) e)

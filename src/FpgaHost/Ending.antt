-- ===== src/FpgaHost/Ending.antt =====
-- The last part of the loop of fpga_host.cc, from the launched kernel on.
use ibverb_prototype.Prelude.{
  ℕ, ◌≡◌, refl, sym, ap, subst, ◌∙◌, inr, Option, List, [], ◌∷◌, ◌++◌, All, All-append,
}
use ibverb_prototype.RawIbverbs.{total_header_size}
use ibverb_prototype.OpenCl.{Arg, Call, Runtime, Command, Board, Host, Outcome}
use ibverb_prototype.OpenCl.Queues.{run_turns, run_kernel}
use ibverb_prototype.OpenCl.Wrapper.{ClKernel, finish}
use ibverb_prototype.FpgaHost.{Turns, end_loop}
use ibverb_prototype.FpgaHost.Launch.{board, Output, IsPlain}
use ibverb_prototype.FpgaHost.Launch.{run_turns_plain}
use ibverb_prototype.FpgaHost.Phases.{assign_all, frame_of, IsOne, Phase, Phase-sent, drain-IsOne}
use ibverb_prototype.FpgaHost.Rules.{Ends, attempt-Ends, after-Ends}

-- The four arguments of the call.
abbrev pub arg_list : ℕ → List Arg
arg_list crc =
    Arg.buffer_arg ∷ Arg.word_arg crc ∷ Arg.word_arg total_header_size ∷ Arg.word_arg 1 ∷ []

abbrev pub loop_args : ℕ → ClKernel → ClKernel
loop_args crc k = assign_all 0 k (arg_list crc)

pub loop_args-runs :
    (scratch : List ℕ) (crc : ℕ) (k : ClKernel) (mem : List ℕ)
    → run_kernel scratch mem
        ((loop_args crc k).args 0)
        ((loop_args crc k).args 1)
        ((loop_args crc k).args 2)
        ((loop_args crc k).args 3)
      ≡ frame_of scratch crc mem
unfolding assign_all run_kernel frame_of
loop_args-runs scratch crc k mem = refl

module _ (rt : Runtime) (t : Turns) (crc : ℕ) (h old : List ℕ) (sent : Output) where
  -- The loop returns with one packet.
  unfoldable pub IsDelivered : Unit {0} → Host → Type 0
  IsDelivered x s = IsOne t.scratch crc h old sent s.board.sent

  Over : Unit {0} → Host → Type 0
  Over x s =
      (mem : List ℕ) × (own : List Command) × (out : Output) × All IsPlain own
      × IsOne t.scratch crc h old sent out
      × (s.board ≡ board h mem own [] out)

  unfoldable pub End : (Unit {0} → Host → Type 0) → Outcome (Unit {0}) → Type 0
  End P o = Ends t.scratch crc h old sent P o

  unmap_turns : Board → Output
  unmap_turns b =
      (run_turns t.scratch t.after_unmap (record b { own = b.own ++ (Command.unmap ∷ []) })).sent

  unmap_turns-IsOne : (s : Host) → Over tt s → IsOne t.scratch crc h old sent (unmap_turns s.board)
  unfolding Over unmap_turns
  unmap_turns-IsOne s (mem, own, out, plain, one, e) =
      let quiet : unmap_turns (board h mem own [] out) ≡ out =
        run_turns_plain t.scratch h t.after_unmap mem (own ++ (Command.unmap ∷ [])) out
          (All-append IsPlain own (Command.unmap ∷ []) plain (tt, tt)) in
      subst (IsOne t.scratch crc h old sent) (sym (ap unmap_turns e ∙ quiet)) one

  Over-IsDelivered : (s : Host) → Over tt s → IsDelivered tt s
  unfolding Over IsDelivered
  Over-IsDelivered s (mem, own, out, plain, one, e) =
      subst (λ (b : Board). IsOne t.scratch crc h old sent b.sent) (sym e) one

  module _ (args : ℕ → Option Arg)
      (runs : (mem : List ℕ)
        → run_kernel t.scratch mem (args 0) (args 1) (args 2) (args 3)
          ≡ frame_of t.scratch crc mem) where
    pub end_loop-Ends :
        (s : Host) → Phase t.scratch crc h old sent args s.board → End IsDelivered (end_loop rt t s)
    unfolding end_loop End IsDelivered Ends unmap_turns
    end_loop-Ends s p =
        after-Ends t.scratch crc h old sent Over IsDelivered (finish rt t.scratch s) _
          (unfold finish Ends Over in
            attempt-Ends t.scratch crc h old sent Over (rt.answers Call.wait_event) s _
              (Phase-sent t.scratch crc h old sent args s.board p)
              (λ x. drain-IsOne t.scratch crc h old sent args runs s.board p))
          (λ x s1 o.
            attempt-Ends t.scratch crc h old sent IsDelivered (rt.answers Call.enqueue_unmap) s1 _
              (inr (Over-IsDelivered s1 o)) (λ y. unmap_turns-IsOne s1 o))

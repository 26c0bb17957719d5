-- ===== src/OpenCl/Wrapper.antt =====
-- The class `Kernel` of opencl_utils.hpp and .cc.
use ibverb_prototype.Prelude.{ℕ, ◌+◌, ◌==◌, if◌then◌else◌, Option, none, some, List, [], ◌∷◌, ◌++◌}
use ibverb_prototype.OpenCl.{
  Answer, done, raised, Arg, Program, Call, Runtime, Command, Host, Outcome, returned, exited,
  and_then, attempt, print_error,
}
use ibverb_prototype.OpenCl.Messages.{codes, error_message}
use ibverb_prototype.OpenCl.Queues.{drain}

-- A `cl::Kernel`: the arguments set so far, by their index.
pub record ClKernel : Type 0 where
  pub args : ℕ → Option Arg

-- `Kernel::Kernel`: the kernel of that name, and a queue in the program's context.
unfoldable pub make_wrapper : Runtime → Program → Host → Outcome ClKernel
unfolding attempt
make_wrapper rt prog s = attempt (rt.answers Call.make_kernel) s (λ _ s1.
    attempt (rt.answers Call.make_kernel_queue) s1
      (λ _ s2. returned (record { args = λ _. none }) s2))

-- `k.setArg(n, a)`, when it succeeds.
unfoldable pub assign : ℕ → Arg → ClKernel → ClKernel
assign n a k = record { args = λ i. if i == n then some a else k.args i }

-- `set_args_n`, with an exception as an answer.
unfoldable pub set_args_n : Runtime → ℕ → ClKernel → List Arg → Answer ClKernel
unfolding assign and_then
set_args_n rt n k [] = done k
set_args_n rt n k (first ∷ rest) =
    and_then (rt.answers (Call.set_arg n first))
      (λ _. set_args_n rt (n + 1) (assign n first k) rest)

unfoldable pub set_args : Runtime → ClKernel → List Arg → Answer ClKernel
unfolding set_args_n
set_args rt k args = set_args_n rt 0 k args

-- The command that `enqueueNDRangeKernel` adds to the kernel's queue.
unfoldable pub launch : ClKernel → Host → Host
launch k s =
    let b = s.board in
    record s { board = record b { launched = b.launched ++ (Command.nd_range k.args ∷ []) } }

-- What follows `set_args` in `Kernel::operator()`: its `catch`, or the launch, which no `try` is around.
unfoldable pub invoke_set : Runtime → Answer ClKernel → Host → Outcome ClKernel
unfolding attempt launch print_error error_message
invoke_set rt (raised e) s = exited (
    print_error
      (codes "Error: " ++ (e.what ++ (codes "\n" ++ (error_message rt.macro e.err ++ codes "\n"))))
      s)
invoke_set rt (done k) s =
    attempt (rt.answers Call.enqueue_kernel) s (λ _ s1. returned k (launch k s1))

-- `Kernel::operator()`.
unfoldable pub invoke : Runtime → ClKernel → List Arg → Host → Outcome ClKernel
unfolding set_args invoke_set
invoke rt k args s = invoke_set rt (set_args rt k args) s

-- `Kernel::finish`: the wait for the event of the launch.
unfoldable pub finish : Runtime → List ℕ → Host → Outcome (Unit {0})
unfolding attempt drain
finish rt scratch s =
    attempt (rt.answers Call.wait_event) s
      (λ _ s1. returned tt (record s1 { board = drain scratch s1.board.launched s1.board }))

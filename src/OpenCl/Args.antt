-- ===== src/OpenCl/Args.antt =====
-- `Kernel::operator()` and the arguments that it sets, described by their places in the list.
use ibverb_prototype.Prelude.{
  ℕ, zero, suc, ◌+◌, ◌<◌, false, ◌≡◌, refl, sym, ap, subst, ◌∙◌, ◌⊎◌, arith, ◌==◌, inl, inr, Option,
  none, some, List, [], ◌∷◌, ◌++◌, length, get_elem?,
}
use ibverb_prototype.OpenCl.{
  ClError, Answer, done, raised, Arg, Call, Runtime, Command, Host, Outcome, returned, uncaught,
  exited, undefined, and_then, attempt, print_error,
}
use ibverb_prototype.OpenCl.Messages.{codes, error_message}
use ibverb_prototype.OpenCl.Wrapper.{
  ClKernel, assign, set_args_n, set_args, launch, invoke_set, invoke,
}

pub Answer-cases {ℓ} :
    {A : Type ℓ} (a : Answer A) → ((x : A) × (a ≡ done x)) ⊎ ((e : ClError) × (a ≡ raised e))
Answer-cases (done x) = inl (x, refl)
Answer-cases (raised e) = inr (e, refl)

-- An argument of the list, or without one what was set before.
unfoldable pub or_else : Option Arg → Option Arg → Option Arg
or_else (some a) old = some a
or_else none old = old

-- The library takes the arguments of the list, the first at the given index.
unfoldable pub IsAccepted : Runtime → ℕ → List Arg → Type 0
IsAccepted rt n [] = Unit {0}
IsAccepted rt n (a ∷ rest) = (rt.answers (Call.set_arg n a) ≡ done tt) × IsAccepted rt (n + 1) rest

-- It takes those before one argument of the list, and not that one.
unfoldable pub IsRefused : Runtime → ℕ → List Arg → ClError → Type 0
IsRefused rt n args e =
    (before : List Arg) × (a : Arg) × (later : List Arg) × (args ≡ before ++ (a ∷ later))
    × IsAccepted rt n before
    × (rt.answers (Call.set_arg (n + length before) a) ≡ raised e)

-- The arguments of a kernel after those of the list have been set.
unfoldable pub IsAssigned : ClKernel → List Arg → ClKernel → Type 0
IsAssigned k args k' = (i : ℕ) → k'.args i ≡ or_else (get_elem? args i) (k.args i)

-- How `Kernel::operator()` can end.
unfoldable pub IsInvoked : Runtime → ClKernel → List Arg → Host → Outcome ClKernel → Type 0
IsInvoked rt k args s (returned k' s') =
    IsAccepted rt 0 args
    × (rt.answers Call.enqueue_kernel ≡ done tt)
    × IsAssigned k args k'
    × (s' ≡ record s {
      board = record (s.board) { launched = s.board.launched ++ (Command.nd_range k'.args ∷ []) };
    })
IsInvoked rt k args s (uncaught e s') =
    IsAccepted rt 0 args × (rt.answers Call.enqueue_kernel ≡ raised e) × (s' ≡ s)
IsInvoked rt k args s (exited s') =
    (e : ClError) × IsRefused rt 0 args e
    × (s'
        ≡ print_error
            (codes "Error: "
              ++ (e.what ++ (codes "\n" ++ (error_message rt.macro e.err ++ codes "\n"))))
            s)
IsInvoked rt k args s (undefined s') = ⊥

-- The same from an index on, for the induction.
record IsAssignedFrom (n : ℕ) (k : ClKernel) (args : List Arg) (k' : ClKernel) : Type 0 where
  here : (i : ℕ) → k'.args (n + i) ≡ or_else (get_elem? args i) (k.args (n + i))
  below : (j : ℕ) → j < n → k'.args j ≡ k.args j

unfoldable IsSettled : Runtime → ℕ → ClKernel → List Arg → Answer ClKernel → Type 0
IsSettled rt n k args (done k') = IsAccepted rt n args × IsAssignedFrom n k args k'
IsSettled rt n k args (raised e) = IsRefused rt n args e

assign_self : (n : ℕ) (a : Arg) (k : ClKernel) → (assign n a k).args n ≡ some a
unfolding assign
assign_self n a k = ground arith

assign_other :
    (n : ℕ) (a : Arg) (k : ClKernel) (j : ℕ) → (j == n) ≡ false → (assign n a k).args j ≡ k.args j
unfolding assign
assign_other n a k j h = rw h refl

-- The first argument and then the others.
assign-IsAssignedFrom :
    (n : ℕ) (a : Arg) (k : ClKernel) (rest : List Arg) (k' : ClKernel)
    → IsAssignedFrom (n + 1) (assign n a k) rest k'
    → IsAssignedFrom n k (a ∷ rest) k'
unfolding or_else
assign-IsAssignedFrom n a k rest k' later = record {
  here = at;
  below = λ j h. later.below j (omega arith) ∙ assign_other n a k j (ground arith);
}
  where
    start : n ≡ n + zero
    start = omega arith

    step : (j : ℕ) → n + 1 + j ≡ n + suc j
    step j = omega arith

    at : (i : ℕ) → k'.args (n + i) ≡ or_else (get_elem? (a ∷ rest) i) (k.args (n + i))
    at zero =
        subst (λ m. k'.args m ≡ some a) start (later.below n (omega arith) ∙ assign_self n a k)
    at (suc j) =
        subst (λ m. k'.args m ≡ or_else (get_elem? rest j) (k.args m)) (step j)
          (later.here j
            ∙ ap (or_else (get_elem? rest j)) (assign_other n a k (n + 1 + j) (ground arith)))

accept_more :
    (rt : Runtime) (n : ℕ) (a : Arg) (rest : List Arg) (e : ClError)
    → rt.answers (Call.set_arg n a) ≡ done tt
    → IsRefused rt (n + 1) rest e
    → IsRefused rt n (a ∷ rest) e
unfolding IsRefused IsAccepted
accept_more rt n a rest e ok (before, b, later, split, taken, refused) = (
  a ∷ before,
  b,
  later,
  ap (λ xs. a ∷ xs) split,
  (ok, taken),
  subst (λ m. rt.answers (Call.set_arg m b) ≡ raised e) place refused,
)
  where
    place : n + 1 + length before ≡ n + suc (length before)
    place = omega arith

-- The arguments in turn, up to the first that is refused.
set_args_n-IsSettled :
    (rt : Runtime) (n : ℕ) (k : ClKernel) (args : List Arg)
    → IsSettled rt n k args (set_args_n rt n k args)
unfolding set_args_n IsSettled IsAccepted IsRefused or_else
set_args_n-IsSettled rt n k [] = (tt, record { here = λ i. refl; below = λ j h. refl })
set_args_n-IsSettled rt n k (a ∷ rest) = elim (Answer-cases (rt.answers (Call.set_arg n a))) [
  | inl (x, ok) ↦
      subst (λ answer. IsSettled rt n k (a ∷ rest) (and_then answer continue)) (sym ok)
        (settled (continue x) ok (set_args_n-IsSettled rt (n + 1) (assign n a k) rest))
  | inr (e, bad) ↦
      subst (λ answer. IsSettled rt n k (a ∷ rest) (and_then answer continue)) (sym bad)
        ([], a, rest, refl, tt, subst (λ m. rt.answers (Call.set_arg m a) ≡ raised e) start bad)
]
  where
    start : n ≡ n + 0
    start = omega arith

    continue : Unit {0} → Answer ClKernel
    continue x = set_args_n rt (n + 1) (assign n a k) rest

    settled :
        (answer : Answer ClKernel)
        → rt.answers (Call.set_arg n a) ≡ done tt
        → IsSettled rt (n + 1) (assign n a k) rest answer
        → IsSettled rt n k (a ∷ rest) answer
    settled (done k') ok (taken, later) = ((ok, taken), assign-IsAssignedFrom n a k rest k' later)
    settled (raised e) ok refused = accept_more rt n a rest e ok refused

invoke_set-IsInvoked :
    (rt : Runtime) (k : ClKernel) (args : List Arg) (s : Host) (answer : Answer ClKernel)
    → IsSettled rt 0 k args answer
    → IsInvoked rt k args s (invoke_set rt answer s)
unfolding invoke_set attempt launch IsInvoked IsSettled IsAssigned
invoke_set-IsInvoked rt k args s (raised e) refused = (e, refused, refl)
invoke_set-IsInvoked rt k args s (done k') (taken, assigned) =
    elim (Answer-cases (rt.answers Call.enqueue_kernel)) [
      | inl (x, ok) ↦
          subst (λ answer. IsInvoked rt k args s (attempt answer s continue)) (sym ok)
            (taken, ok, every, refl)
      | inr (e, bad) ↦
          subst (λ answer. IsInvoked rt k args s (attempt answer s continue)) (sym bad)
            (taken, bad, refl)
    ]
  where
    continue : Unit {0} → Host → Outcome ClKernel
    continue x s1 = returned k' (launch k' s1)

    start : (i : ℕ) → 0 + i ≡ i
    start i = omega arith

    every : (i : ℕ) → k'.args i ≡ or_else (get_elem? args i) (k.args i)
    every i =
        subst (λ m. k'.args m ≡ or_else (get_elem? args i) (k.args m)) (start i) (assigned.here i)

-- A call of a kernel's wrapper returns if the library takes every argument, in the order of the list,
-- and then the launch: argument i is the i-th of the list, those behind the list are as they were, and
-- one command, the kernel with these arguments, joins the end of the kernel's queue. An argument that
-- is refused after those before it were taken ends the program with the message of its exception, and
-- nothing is launched. An exception of the launch leaves the function, which has changed nothing
-- of the host. There is no other end.
pub invoke-IsInvoked :
    (rt : Runtime) (k : ClKernel) (args : List Arg) (s : Host)
    → IsInvoked rt k args s (invoke rt k args s)
unfolding invoke set_args
invoke-IsInvoked rt k args s =
    invoke_set-IsInvoked rt k args s (set_args_n rt 0 k args) (set_args_n-IsSettled rt 0 k args)

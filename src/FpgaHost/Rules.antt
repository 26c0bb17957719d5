-- ===== src/FpgaHost/Rules.antt =====
-- How the functions of opencl_utils.cc may end, for the board that fpga_host.cc has given them.
use ibverb_prototype.Prelude.{
  ℕ, ◌≡◌, sym, ap, subst, ◌∙◌, ◌⊎◌, Bool-cases, inl, inr, List, [], ◌∷◌, ◌++◌,
}
use ibverb_prototype.OpenCl.{
  Answer, done, raised, Device, Platform, DeviceType, Program, Arg, Call, Runtime, Command, Board,
  Host, Outcome, returned, uncaught, exited, undefined, attempt, after, print, print_error,
}
use ibverb_prototype.OpenCl.Context.{create_context, find_platform, open_devices, after_load}
use ibverb_prototype.OpenCl.Wrapper.{ClKernel, make_wrapper, invoke, invoke_set}
use ibverb_prototype.Text.{same_name}
use ibverb_prototype.OpenCl.Messages.{codes}
use ibverb_prototype.OpenCl.Context.{platform_name, device_type, device_type_warning, device_lines}
use ibverb_prototype.FpgaHost.Launch.{Output}
use ibverb_prototype.FpgaHost.Phases.{assign_all, set_args_n-assign_all, IsOne}

-- The memory of the host's buffer and of the device's before the copy, and what was sent before the loop.
module _ (scratch : List ℕ) (crc : ℕ) (h old : List ℕ) (sent : Output) where
  -- How a call may end: as P says if it returns, with at most that packet if an exception leaves it, and
  -- with none if it exits or uses a device that is not there.
  unfoldable pub Ends : {A : Type 0} → (A → Host → Type 0) → Outcome A → Type 0
  Ends P (returned a s) = P a s
  Ends P (uncaught e s) = (s.board.sent ≡ sent) ⊎ IsOne scratch crc h old sent s.board.sent
  Ends P (exited s) = s.board.sent ≡ sent
  Ends P (undefined s) = s.board.sent ≡ sent

  pub attempt-Ends :
      {A B : Type 0} (P : B → Host → Type 0) (a : Answer A) (s : Host) (k : A → Host → Outcome B)
      → (s.board.sent ≡ sent) ⊎ IsOne scratch crc h old sent s.board.sent
      → ((x : A) → Ends P (k x s))
      → Ends P (attempt a s k)
  unfolding attempt Ends
  attempt-Ends P (done x) s k unsent good = good x
  attempt-Ends P (raised e) s k unsent good = unsent

  pub after-Ends :
      {A B : Type 0} (P : A → Host → Type 0) (Q : B → Host → Type 0) (o : Outcome A)
      (k : A → Host → Outcome B)
      → Ends P o
      → ((x : A) (s : Host) → P x s → Ends Q (k x s))
      → Ends Q (after o k)
  unfolding after Ends
  after-Ends P Q (returned x s) k h good = good x s h
  after-Ends P Q (uncaught e s) k h good = h
  after-Ends P Q (exited s) k h good = h
  after-Ends P Q (undefined s) k h good = h

  module _ (rt : Runtime) where
    open_devices-Ends :
        (answer : Answer (List Device)) (s : Host) (b : Board)
        → s.board ≡ b
        → b.sent ≡ sent
        → Ends (λ (_ : List Device) s'. s'.board ≡ b) (open_devices rt answer s)
    unfolding open_devices Ends
    open_devices-Ends answer s b e u =
        let unsent : s.board.sent ≡ sent = ap (λ (c : Board). c.sent) e ∙ u in
        attempt-Ends (λ (_ : List Device) s'. s'.board ≡ b) answer s _ (inl unsent)
          (λ devices.
            attempt-Ends (λ (_ : List Device) s'. s'.board ≡ b)
              (rt.answers (Call.make_context devices)) (print (device_lines devices) s) _
              (inl unsent) (λ x. e))

    find_platform-Ends :
        (wanted : List ℕ) (type : DeviceType) (ps : List Platform) (s : Host) (b : Board)
        → s.board ≡ b
        → b.sent ≡ sent
        → Ends (λ (_ : List Device) s'. s'.board ≡ b) (find_platform rt wanted type ps s)
    unfolding find_platform Ends
    find_platform-Ends wanted type [] s b e u = ap (λ (c : Board). c.sent) e ∙ u
    find_platform-Ends wanted type (p ∷ ps) s b e u = elim (Bool-cases (same_name p.name wanted)) [
      | inl named ↦ rw (named) (open_devices-Ends (p.devices type) s b e u)
      | inr other ↦ rw (other) (find_platform-Ends wanted type ps s b e u)
    ]

    pub create_context-Ends :
        (s : Host) (b : Board)
        → s.board ≡ b
        → b.sent ≡ sent
        → Ends (λ (_ : List Device) s'. s'.board ≡ b) (create_context rt s)
    unfolding create_context
    create_context-Ends s b e u =
        attempt-Ends (λ (_ : List Device) s'. s'.board ≡ b) rt.platforms
          (print_error (device_type_warning (rt.getenv (codes "TYPE"))) s) _
          (inl (ap (λ (c : Board). c.sent) e ∙ u))
          (λ platforms.
            find_platform-Ends (platform_name (rt.getenv (codes "PLATFORM")))
              (device_type (rt.getenv (codes "TYPE"))) platforms _ b e u)

    pub after_load-Ends :
        (answer : Answer Program) (s : Host) (b : Board)
        → s.board ≡ b
        → b.sent ≡ sent
        → Ends (λ (_ : Program) s'. s'.board ≡ b) (after_load rt answer s)
    unfolding after_load Ends
    after_load-Ends (done p) s b e u = e
    after_load-Ends (raised err) s b e u = ap (λ (c : Board). c.sent) e ∙ u

    pub make_wrapper-Ends :
        (p : Program) (s : Host) (b : Board)
        → s.board ≡ b
        → b.sent ≡ sent
        → Ends (λ (_ : ClKernel) s'. s'.board ≡ b) (make_wrapper rt p s)
    unfolding make_wrapper Ends
    make_wrapper-Ends p s b e u =
        let unsent : s.board.sent ≡ sent = ap (λ (c : Board). c.sent) e ∙ u in
        attempt-Ends (λ (_ : ClKernel) s'. s'.board ≡ b) (rt.answers Call.make_kernel) s _
          (inl unsent)
          (λ x.
            attempt-Ends (λ (_ : ClKernel) s'. s'.board ≡ b) (rt.answers Call.make_kernel_queue) s _
              (inl unsent) (λ y. e))

    pub invoke-Ends :
        (k : ClKernel) (args : List Arg) (s : Host) (b : Board)
        → s.board ≡ b
        → b.sent ≡ sent
        → Ends
            (λ (_ : ClKernel) s'. s'.board ≡ record b {
              launched = b.launched ++ (Command.nd_range (assign_all 0 k args).args ∷ []);
            })
            (invoke rt k args s)
    unfolding invoke Ends
    invoke-Ends k args s b e u =
        let unsent : s.board.sent ≡ sent = ap (λ (c : Board). c.sent) e ∙ u in
        let next : Board → Board = λ c. record c {
          launched = c.launched ++ (Command.nd_range (assign_all 0 k args).args ∷ []);
        } in
        let P : ClKernel → Host → Type 0 = λ _ s'. s'.board ≡ next b in
        elim (set_args_n-assign_all rt 0 k args) [
          | inl ok ↦
              subst (λ answer. Ends P (invoke_set rt answer s)) (sym ok)
                (attempt-Ends P (rt.answers Call.enqueue_kernel) s _ (inl unsent) (λ x. ap next e))
          | inr (err, bad) ↦ subst (λ answer. Ends P (invoke_set rt answer s)) (sym bad) unsent
        ]

-- ===== src/Rdma/Setup/QueuePair.antt =====
-- The states of an unreliable datagram queue pair, by the transitions that the manual of `ibv_modify_qp`
-- documents, and where the calls of the set-up leave it.
use ibverb_prototype.Prelude.{ℕ, bit_and, ◌≡◌, refl, Option, none, some, List, [], ◌∷◌, All}
use ibverb_prototype.Rdma.Setup.Attributes.{
  QpState, QpAttr, QpInit, VerbsCall, init_mask, rtr_mask, rts_mask, qp_state_bit,
  qp_pkey_index_bit, qp_port_bit, qp_qkey_bit, qp_sq_psn_bit, qpt_ud,
}
use ibverb_prototype.Rdma.Setup.State.{Env, Rdma}
use ibverb_prototype.Rdma.Setup.Released.{initialised, init_attr, rtr_attr, ud_queue_pair}
use ibverb_prototype.Rdma.Setup.ServerPaths.{server_ready}
use ibverb_prototype.Rdma.Setup.ClientPaths.{client_ready, rts_attr}

-- The attributes that a change from one state to another has to give, as bits of the mask; `none` is
-- a change that there is not, of those between the four states.
unfoldable pub required : QpState → QpState → Option (List ℕ)
required QpState.reset QpState.init =
    some (qp_state_bit ∷ qp_pkey_index_bit ∷ qp_port_bit ∷ qp_qkey_bit ∷ [])
required QpState.init QpState.init = some (qp_state_bit ∷ [])
required QpState.init QpState.rtr = some (qp_state_bit ∷ [])
required QpState.rtr QpState.rts = some (qp_state_bit ∷ qp_sq_psn_bit ∷ [])
required QpState.rts QpState.rts = some (qp_state_bit ∷ [])
required _ _ = none

-- A legal change.
pub data Transition : QpState → ℕ → QpState → Type 0 where
  change :
      (from to : QpState) (mask : ℕ) (bits : List ℕ)
      → required from to ≡ some bits
      → All (λ b. bit_and mask b ≡ b) bits
      → Transition from mask to

-- A call that is not about the queue pair.
abbrev IsApart : VerbsCall → Type 0
IsApart (VerbsCall.register_memory size access) = Unit
IsApart (VerbsCall.create_cq n) = Unit
IsApart (VerbsCall.create_qp attr) = ⊥
IsApart (VerbsCall.modify_qp attr mask) = ⊥
IsApart (VerbsCall.create_ah attr) = Unit

-- The state of the one queue pair after the calls, the latest first, every change of it being legal. It
-- is made with both of its queues on a completion queue that has as many entries as they have.
pub data IsIn : List VerbsCall → QpState → Type 0 where
  made :
      (n : ℕ) (calls : List VerbsCall) (attr : QpInit)
      → All IsApart calls
      → attr.qp_type ≡ qpt_ud
      → (attr.max_send_wr ≡ n) × (attr.max_recv_wr ≡ n)
      → IsIn (VerbsCall.create_qp attr ∷ VerbsCall.create_cq n ∷ calls) QpState.reset
  apart :
      (call : VerbsCall) (calls : List VerbsCall) (state : QpState)
      → IsApart call
      → IsIn calls state
      → IsIn (call ∷ calls) state
  changed :
      (attr : QpAttr) (mask : ℕ) (calls : List VerbsCall) (from to : QpState)
      → IsIn calls from
      → attr.qp_state ≡ to
      → Transition from mask to
      → IsIn (VerbsCall.modify_qp attr mask ∷ calls) to

initialised-IsIn : (env : Env) (n : ℕ) → IsIn (initialised env n).calls QpState.rtr
unfolding required
initialised-IsIn env n =
    IsIn.changed (rtr_attr env) rtr_mask _ QpState.init QpState.rtr
      (IsIn.changed (init_attr env) init_mask _ QpState.reset QpState.init
        (IsIn.made n [] (ud_queue_pair n) tt refl (refl, refl)) refl
        (Transition.change QpState.reset QpState.init init_mask
          (qp_state_bit ∷ qp_pkey_index_bit ∷ qp_port_bit ∷ qp_qkey_bit ∷ []) refl
          (refl, (refl, (refl, (refl, tt))))))
      refl (Transition.change QpState.init QpState.rtr rtr_mask (qp_state_bit ∷ []) refl (refl, tt))

pub server_ready-IsIn : (env : Env) (n : ℕ) → IsIn (server_ready env n).calls QpState.rtr
server_ready-IsIn env n =
    IsIn.apart _ _ QpState.rtr tt (IsIn.apart _ _ QpState.rtr tt (initialised-IsIn env n))

pub client_ready-IsIn :
    (env : Env) (n lid : ℕ) (gid : List ℕ) → IsIn (client_ready env n lid gid).calls QpState.rts
unfolding required
client_ready-IsIn env n lid gid = IsIn.apart _ _ QpState.rts tt (
    IsIn.changed (rts_attr env) rts_mask _ QpState.rtr QpState.rts
      (IsIn.apart _ _ QpState.rtr tt (initialised-IsIn env n)) refl
      (Transition.change QpState.rtr QpState.rts rts_mask (qp_state_bit ∷ qp_sq_psn_bit ∷ []) refl
        (refl, (refl, tt))))

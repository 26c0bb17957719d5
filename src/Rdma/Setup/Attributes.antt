-- ===== src/Rdma/Setup/Attributes.antt =====
-- The attributes that rdma.c gives to the calls of the verbs library, as far as it sets them.
use ibverb_prototype.Prelude.{ℕ, bit_or, List}

-- `IB_PORT`, and the queue key that both programs use.
abbrev pub ib_port : ℕ
ib_port = 1

abbrev pub shared_queue_key : ℕ
shared_queue_key = 0x11111111

-- The states of a queue pair that the programs ask for, and the one that it is created in.
pub data QpState : Type 0 where
  reset init rtr rts : QpState

-- `struct ibv_qp_attr`.
pub record QpAttr : Type 0 where
  pub qp_state : QpState
  pub pkey_index : ℕ
  pub port_num : ℕ
  pub qkey : ℕ
  pub sq_psn : ℕ

-- `IBV_QP_STATE`, `IBV_QP_PKEY_INDEX`, `IBV_QP_PORT`, `IBV_QP_QKEY` and `IBV_QP_SQ_PSN`.
abbrev pub qp_state_bit : ℕ
qp_state_bit = 1

abbrev pub qp_pkey_index_bit : ℕ
qp_pkey_index_bit = 16

abbrev pub qp_port_bit : ℕ
qp_port_bit = 32

abbrev pub qp_qkey_bit : ℕ
qp_qkey_bit = 64

abbrev pub qp_sq_psn_bit : ℕ
qp_sq_psn_bit = 65536

-- The masks of the transitions to the three states.
abbrev pub init_mask : ℕ
init_mask = bit_or (bit_or (bit_or qp_state_bit qp_pkey_index_bit) qp_port_bit) qp_qkey_bit

abbrev pub rtr_mask : ℕ
rtr_mask = qp_state_bit

abbrev pub rts_mask : ℕ
rts_mask = bit_or qp_state_bit qp_sq_psn_bit

-- `struct ibv_qp_cap` and the type, `IBV_QPT_UD`, of `struct ibv_qp_init_attr`.
pub record QpInit : Type 0 where
  pub max_send_wr : ℕ
  pub max_recv_wr : ℕ
  pub max_send_sge : ℕ
  pub max_recv_sge : ℕ
  pub qp_type : ℕ

abbrev pub qpt_ud : ℕ
qpt_ud = 4

-- `IBV_ACCESS_LOCAL_WRITE`.
abbrev pub access_local_write : ℕ
access_local_write = 1

-- `struct ibv_ah_attr` with its `struct ibv_global_route`.
pub record AhAttr : Type 0 where
  pub dlid : ℕ
  pub sl : ℕ
  pub src_path_bits : ℕ
  pub static_rate : ℕ
  pub is_global : ℕ
  pub port_num : ℕ
  pub dgid : List ℕ
  pub flow_label : ℕ
  pub sgid_index : ℕ
  pub hop_limit : ℕ
  pub traffic_class : ℕ

-- A call that has succeeded, with its attributes: a registration of so many bytes, the creation of a
-- completion queue with so many entries, of a queue pair, and of an address handle, and a change of
-- the queue pair, of which the bits of the mask say what is looked at.
pub data VerbsCall : Type 0 where
  register_memory : (size access : ℕ) → VerbsCall
  create_cq : (entries : ℕ) → VerbsCall
  create_qp : QpInit → VerbsCall
  modify_qp : (attr : QpAttr) (mask : ℕ) → VerbsCall
  create_ah : AhAttr → VerbsCall

-- ===== src/Rdma/Setup/State.antt =====
-- The static variables of rdma.c, and the calls that its set-up makes of the verbs library and of the C
-- library, whose answers are a parameter.
use ibverb_prototype.Rdma.Setup.Attributes.{QpAttr, VerbsCall}
use ibverb_prototype.Prelude.{ℕ, Bool, false, if◌then◌else◌, List, [], ◌∷◌}

-- What the set-up acquires. The last four before the address handle are arrays of `malloc`.
pub data Resource : Type 0 where
  device_list : Resource
  device_context : Resource
  pd : Resource
  cq : Resource
  qp : Resource
  data_mem : Resource
  data_mr : Resource
  header_mem : Resource
  header_mr : Resource
  result_array : Resource
  sge_array : Resource
  recv_array : Resource
  send_array : Resource
  ah_handle : Resource

-- The calls that may fail and acquire nothing.
pub data Query : Type 0 where
  query_port : Query
  modify_init : Query
  modify_rtr : Query
  modify_rts : Query
  query_gid : Query
  query_port_again : Query
  print_gid : Query

-- The answers of the two libraries: which calls succeed, and the values that the code reads. A
-- device is known by its name. `queried_attr` is the local `attr` of `rdma_init` after `ibv_query_qp`,
-- `stack_attr` that of `rdma_init_client` before anything is assigned to it.
pub record Env : Type 0 where
  pub devices : List (List ℕ)
  pub acquires : Resource → Bool
  pub answers : Query → Bool
  pub releases : Resource → Bool
  pub active_mtu : ℕ
  pub max_inline_data : ℕ
  pub data_key : ℕ
  pub header_key : ℕ
  pub ah_number : ℕ
  pub queried_attr : QpAttr
  pub stack_attr : QpAttr

-- An acquisition or a release that has taken place.
pub data Event : Type 0 where
  acquired : Resource → Event
  released : Resource → Event

-- The static variables. A pointer is whether it is not NULL. `trace` is no variable of the code:
-- it is what has happened so far, the latest event first; and `calls` are those of the calls that have
-- attributes and have succeeded, likewise.
pub record Rdma : Type 0 where
  pub queue_size : ℕ
  pub max_mtu : ℕ
  pub send_flags : ℕ
  pub header_buffer : Bool
  pub buffer : Bool
  pub scatter_gather : Bool
  pub recv_requests : Bool
  pub send_requests : Bool
  pub memory_region : Bool
  pub header_memory_region : Bool
  pub ah : Bool
  pub trace : List Event
  pub calls : List VerbsCall

-- `IBV_SEND_SIGNALED` and `IBV_SEND_INLINE`.
abbrev pub send_signaled : ℕ
send_signaled = 2

abbrev pub send_inline : ℕ
send_inline = 8

-- The values that the static variables start with.
abbrev pub start : Rdma
start = record {
  queue_size = 0;
  max_mtu = 0;
  send_flags = send_signaled;
  header_buffer = false;
  buffer = false;
  scatter_gather = false;
  recv_requests = false;
  send_requests = false;
  memory_region = false;
  header_memory_region = false;
  ah = false;
  trace = [];
  calls = [];
}

-- How a program ends, or a call that returns: with a result, or by `exit(EXIT_FAILURE)`.
pub data Ending {ℓ} (A : Type ℓ) : Type ℓ where
  returned : A → Rdma → Ending A
  exited : Rdma → Ending A

unfoldable pub log : Event → Rdma → Rdma
log e s = record s { trace = e ∷ s.trace }

unfoldable pub note : VerbsCall → Rdma → Rdma
note c s = record s { calls = c ∷ s.calls }

-- A call that acquires r, the clean-up label that a failure goes to, and what follows a success.
unfoldable pub try_acquire {ℓ} :
    {A : Type ℓ} → Env → Resource → Rdma → (Rdma → Ending A) → (Rdma → Ending A) → Ending A
unfolding log
try_acquire env r s label continue =
    if env.acquires r then continue (log (acquired r) s) else label s

-- A query that may fail, likewise.
unfoldable pub try_query {ℓ} :
    {A : Type ℓ} → Env → Query → Rdma → (Rdma → Ending A) → (Rdma → Ending A) → Ending A
try_query env q s label continue = if env.answers q then continue s else label s

-- A call that releases r and whose result is not looked at.
unfoldable pub release : Env → Resource → Rdma → Rdma
unfolding log
release env r s = if env.releases r then log (released r) s else s

-- A call that releases r, and `exit(EXIT_FAILURE)` if it fails.
unfoldable pub must_release {ℓ} :
    {A : Type ℓ} → Env → Resource → Rdma → (Rdma → Ending A) → Ending A
unfolding log
must_release env r s continue = if env.releases r then continue (log (released r) s) else exited s

-- The two with the attributes of the call.
unfoldable pub try_create {ℓ} :
    {A : Type ℓ}
    → Env
    → Resource
    → VerbsCall
    → Rdma
    → (Rdma → Ending A)
    → (Rdma → Ending A)
    → Ending A
unfolding try_acquire note
try_create env r call s label continue = try_acquire env r s label (λ s1. continue (note call s1))

unfoldable pub try_modify {ℓ} :
    {A : Type ℓ} → Env → Query → VerbsCall → Rdma → (Rdma → Ending A) → (Rdma → Ending A) → Ending A
unfolding try_query note
try_modify env q call s label continue = try_query env q s label (λ s1. continue (note call s1))

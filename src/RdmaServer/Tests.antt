-- ===== src/RdmaServer/Tests.antt =====
-- The server over a device that keeps its queue in a list, and the theorems at small inputs.
use ibverb_prototype.Prelude.{
  replicate, ℕ, Bool, suc, ◌*◌, ◌≤◌, ◌≡◌, refl, arith, true, false, some, List, [], ◌∷◌, ◌++◌, map,
}
use ibverb_prototype.Packet.{msg_size}
use ibverb_prototype.Rdma.Request.{RecvWr, recv_linked, send_linked}
use ibverb_prototype.Rdma.Post.{post}
use ibverb_prototype.Rdma.Post.Ring.{post-window}
use ibverb_prototype.Rdma.Buffers.{server_arrays, client_arrays, Target, grh_size}
use ibverb_prototype.Rdma.Buffers.Layout.{server_arrays-IsRing, IsServerEntry, server_arrays-layout}
use ibverb_prototype.Rdma.Buffers.Client.{IsClientEntry, client_arrays-layout}
use ibverb_prototype.Rdma.Device.{Wc, Poll, poll_failed, polled, Device}
use ibverb_prototype.Rdma.Setup.Attributes.{QpState, QpAttr}
use ibverb_prototype.Rdma.Setup.State.{Resource, recv_array, send_array, Env}
use ibverb_prototype.Rdma.Setup.Programs.{rdma_init_server, rdma_init_client}
use ibverb_prototype.Rdma.Setup.ServerPaths.{IsSetUp, server_ready, rdma_init_server-IsSetUp}
use ibverb_prototype.Rdma.Setup.ClientPaths.{client_ready, client_target, rdma_init_client-IsSetUp}

-- Every poll completes two requests, if there are as many.
completions : List ℕ → List Wc
completions [] = []
completions (i ∷ is) = record { wr_id = i; success = true; byte_len = 8980 } ∷ completions is

list_poll : ℕ → List ℕ → Poll × List ℕ
list_poll (suc (suc limit)) (i ∷ j ∷ rest) = (polled (completions (i ∷ j ∷ [])), rest)
list_poll limit queue = (polled [], queue)

abbrev list_device : Device RecvWr
list_device = record {
  Q = List ℕ;
  outstanding = λ q. q;
  ibv_post = λ chain q. (true, q ++ map (λ (r : RecvWr). r.wr_id) chain);
  ibv_poll_cq = list_poll;
}

completed : Poll → List Wc
completed poll_failed = []
completed (polled wcs) = wcs

-- Three requests are posted from the ring of five, round its end.
post-window_example :
    (chain : List RecvWr) × (map (λ (r : RecvWr). r.wr_id) chain ≡ 3 ∷ 4 ∷ 0 ∷ [])
    × (post list_device.ibv_post 5 3 3 (server_arrays 5 1 2).recv_requests []
        ≡ some (true, (server_arrays 5 1 2).recv_requests, map (λ (r : RecvWr). r.wr_id) chain))
post-window_example =
    post-window list_device.ibv_post 5 3 3 (server_arrays 5 1 2).recv_requests []
      (server_arrays-IsRing 5 1 2) (omega arith) (omega arith) (omega arith)

server_arrays-layout_example :
    IsServerEntry 5 1 2 1 1 (server_arrays 5 1 2)
    × (80 ≤ 3 * grh_size)
    × (2 * msg_size ≤ 3 * msg_size)
    × (160 ≤ 5 * 40)
    × (4 * msg_size ≤ 5 * msg_size)
server_arrays-layout_example = server_arrays-layout 5 1 2 1 3 (omega arith) (omega arith)

abbrev some_target : Target
some_target = record { data_key = 2; flags = 2; ah = 9; qpn = 0x182 }

client_arrays-layout_example :
    IsClientEntry 20 some_target 1 1 (client_arrays 20 some_target)
    × (2 * msg_size ≤ 3 * msg_size)
    × (4 * msg_size ≤ 20 * msg_size)
client_arrays-layout_example = client_arrays-layout 20 some_target 1 3 (omega arith) (omega arith)

abbrev no_attr : QpAttr
no_attr = record { qp_state = QpState.reset; pkey_index = 3; port_num = 0; qkey = 0; sq_psn = 9 }

-- Libraries on which every call succeeds but the acquisition of one resource.
without : (Resource → Bool) → Env
without acquires = record {
  devices = (109 ∷ 108 ∷ []) ∷ (114 ∷ 120 ∷ []) ∷ [];
  acquires = acquires;
  answers = λ q. true;
  releases = λ r. true;
  active_mtu = 5;
  max_inline_data = 64;
  data_key = 1;
  header_key = 2;
  ah_number = 7;
  queried_attr = no_attr;
  stack_attr = no_attr;
}

all_but_requests : Resource → Bool
all_but_requests recv_array = false
all_but_requests _ = true

rdma_init_server_example :
    IsSetUp
      (without all_but_requests)
      recv_array
      (server_arrays 5 (without all_but_requests).header_key (without all_but_requests).data_key)
      (server_ready (without all_but_requests) 5)
      (rdma_init_server (without all_but_requests) (114 ∷ 120 ∷ []) 5)
unfolding without
rdma_init_server_example =
    rdma_init_server-IsSetUp (without all_but_requests) (λ r. refl) (114 ∷ 120 ∷ []) 5

rdma_init_client_example :
    IsSetUp
      (without (λ r. true))
      send_array
      (client_arrays 20 (client_target (without (λ r. true)) 0x182))
      (client_ready (without (λ r. true)) 20 3 (replicate 16 1))
      (rdma_init_client (without (λ r. true)) (114 ∷ 120 ∷ []) 20 3 (replicate 16 1) 0x182)
unfolding without
rdma_init_client_example =
    rdma_init_client-IsSetUp (without (λ r. true)) (λ r. refl) (114 ∷ 120 ∷ []) 20 3
      (replicate 16 1) 0x182

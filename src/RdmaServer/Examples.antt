-- ===== src/RdmaServer/Examples.antt =====
-- The whole server over a device that completes one request in each poll.
use ibverb_prototype.Prelude.{
  ℕ, zero, suc, ◌≤◌, ◌<◌, ◌≡◌, refl, sym, ap, arith, true, false, List, [], ◌∷◌, ◌++◌, map, length,
  replicate,
}
use ibverb_prototype.Rdma.Request.{RecvWr}
use ibverb_prototype.Rdma.Post.Ring.{window}
use ibverb_prototype.Rdma.Device.{Wc, Poll, poll_failed, polled, Device, IsFifo}
use ibverb_prototype.Rdma.Lively.{AllSucceed, IsLively}
use ibverb_prototype.Rdma.Setup.Attributes.{QpState, QpAttr}
use ibverb_prototype.Rdma.Setup.State.{Env}
use ibverb_prototype.RdmaServer.{Server, finished, server_main}
use ibverb_prototype.RdmaServer.Order.{reported}
use ibverb_prototype.RdmaServer.Live.{server_main_progress}
use ibverb_prototype.RdmaServer.Command.{IsServerRun, server_command, server_command-IsServerRun}

one_poll : ℕ → List ℕ → Poll × List ℕ
one_poll (suc limit) (i ∷ rest) =
    (polled (record { wr_id = i; success = true; byte_len = 8980 } ∷ []), rest)
one_poll limit queue = (polled [], queue)

abbrev one_device : Device RecvWr
one_device = record {
  Q = List ℕ;
  outstanding = λ q. q;
  ibv_post = λ chain q. (true, q ++ map (λ (r : RecvWr). r.wr_id) chain);
  ibv_poll_cq = one_poll;
}

abbrev listed : Poll → List Wc
listed poll_failed = []
listed (polled wcs) = wcs

poll_parts :
    {p : List Wc} {q : List ℕ} (wcs : List Wc) (q' : List ℕ)
    → ◌≡◌ {A = Poll × List ℕ} (polled p, q) (polled wcs, q')
    → (p ≡ wcs) × (q ≡ q')
poll_parts wcs q' e = (ap (λ r. listed r.0) e, ap (λ r. r.1) e)

one_poll_order :
    (limit : ℕ) (q q' : List ℕ) (wcs : List Wc)
    → one_poll limit q ≡ (polled wcs, q')
    → (q ≡ map (λ (w : Wc). w.wr_id) wcs ++ q') × (length wcs ≤ limit)
unfolding one_poll
one_poll_order zero q q' wcs e =
    let parts = poll_parts wcs q' e in rw (← parts.0) (parts.1, omega arith)
one_poll_order (suc limit) [] q' wcs e =
    let parts = poll_parts wcs q' e in rw (← parts.0) (parts.1, omega arith)
one_poll_order (suc limit) (i ∷ q) q' wcs e =
    let parts = poll_parts wcs q' e in rw (← parts.0) (ap (λ l. i ∷ l) parts.1, omega arith)

one_device-IsFifo : IsFifo (λ (r : RecvWr). r.wr_id) one_device
one_device-IsFifo = record {
  post_order = λ chain q q' e. sym (ap (λ r. r.1) e);
  poll_order = λ limit q q' wcs e. one_poll_order limit q q' wcs e;
}

one_poll_lively :
    (q : List ℕ)
    → 0 < length q
    → (wcs : List Wc) × (q' : List ℕ) × (one_poll 10 q ≡ (polled wcs, q'))
      × (0 < length wcs)
      × AllSucceed wcs
unfolding one_poll
one_poll_lively [] h = absurd (omega arith)
one_poll_lively (i ∷ q) h = (_, q, refl, omega arith, (refl, tt))

one_device-IsLively : IsLively one_device
one_device-IsLively = record { polls = one_poll_lively; takes = λ chain q. refl }

server_main_progress_example :
    (s' : Server one_device) × (total : ℕ) × (server_main one_device 1 2 [] 250 ≡ finished s')
    × (250 ≤ total)
    × (reported s'.reports ≡ window 100 0 total)
    × (length s'.reports ≡ total)
server_main_progress_example =
    server_main_progress one_device one_device-IsFifo one_device-IsLively 1 2 [] 250 refl

abbrev no_attr : QpAttr
no_attr = record { qp_state = QpState.reset; pkey_index = 3; port_num = 0; qkey = 0; sq_psn = 9 }

abbrev rxe : List ℕ
rxe = 114 ∷ 120 ∷ 101 ∷ []

-- Libraries on which every call succeeds.
abbrev working : Env
working = record {
  devices = rxe ∷ [];
  acquires = λ r. true;
  answers = λ q. true;
  releases = λ r. true;
  active_mtu = 5;
  max_inline_data = 64;
  data_key = 1;
  header_key = 2;
  ah_number = 7;
  queried_attr = no_attr;
  stack_attr = no_attr;
}

server_command-IsServerRun_example :
    IsServerRun working one_device
      (rxe ∷ rxe ∷ [])
      true
      (server_command working one_device (rxe ∷ rxe ∷ []) true [] (replicate 250 false))
server_command-IsServerRun_example =
    server_command-IsServerRun working (λ r. refl) one_device one_device-IsFifo (rxe ∷ rxe ∷ [])
      true [] (replicate 250 false) refl

-- ===== src/RdmaClient/Tests.antt =====
-- The client over a device that keeps its queue in a list, and the theorems at small inputs.
use ibverb_prototype.Prelude.{
  replicate, ℕ, zero, suc, ◌≤◌, ◌<◌, ◌≡◌, refl, sym, ap, arith, true, false, List, [], ◌∷◌, ◌++◌,
  map, length,
}
use ibverb_prototype.Rdma.Request.{SendWr}
use ibverb_prototype.Rdma.Buffers.{Target, client_arrays}
use ibverb_prototype.Rdma.Device.{Wc, Poll, poll_failed, polled, Device, IsFifo}
use ibverb_prototype.Rdma.Lively.{AllSucceed, IsLively}
use ibverb_prototype.Rdma.Setup.Attributes.{QpState, QpAttr}
use ibverb_prototype.Rdma.Setup.State.{Env}
use ibverb_prototype.RdmaClient.{Client, finished, send_from}
use ibverb_prototype.RdmaClient.Command.{
  Parsers, IsCommandRun, client_command, client_command-IsCommandRun,
}
use ibverb_prototype.RdmaClient.Order.{IsSent, IsSending}
use ibverb_prototype.RdmaClient.Live.{send_from_progress}
use ibverb_prototype.RdmaClient.Program.{send_from-IsSent}

-- Every poll completes one request, if there is one.
sent_poll : ℕ → List ℕ → Poll × List ℕ
sent_poll (suc limit) (i ∷ rest) =
    (polled (record { wr_id = i; success = true; byte_len = 0 } ∷ []), rest)
sent_poll limit queue = (polled [], queue)

abbrev sent_device : Device SendWr
sent_device = record {
  Q = List ℕ;
  outstanding = λ q. q;
  ibv_post = λ chain q. (true, q ++ map (λ (r : SendWr). r.wr_id) chain);
  ibv_poll_cq = sent_poll;
}

completed : Poll → List Wc
completed poll_failed = []
completed (polled wcs) = wcs

sent_parts :
    {p : List Wc} {q : List ℕ} (wcs : List Wc) (q' : List ℕ)
    → ◌≡◌ {A = Poll × List ℕ} (polled p, q) (polled wcs, q')
    → (p ≡ wcs) × (q ≡ q')
unfolding completed
sent_parts wcs q' e = (ap (λ r. completed r.0) e, ap (λ r. r.1) e)

sent_poll_order :
    (limit : ℕ) (q q' : List ℕ) (wcs : List Wc)
    → sent_poll limit q ≡ (polled wcs, q')
    → (q ≡ map (λ (w : Wc). w.wr_id) wcs ++ q') × (length wcs ≤ limit)
unfolding sent_poll
sent_poll_order zero q q' wcs e =
    let parts = sent_parts wcs q' e in rw (← parts.0) (parts.1, omega arith)
sent_poll_order (suc limit) [] q' wcs e =
    let parts = sent_parts wcs q' e in rw (← parts.0) (parts.1, omega arith)
sent_poll_order (suc limit) (i ∷ q) q' wcs e =
    let parts = sent_parts wcs q' e in rw (← parts.0) (ap (λ l. i ∷ l) parts.1, omega arith)

sent_device-IsFifo : IsFifo (λ (r : SendWr). r.wr_id) sent_device
sent_device-IsFifo = record {
  post_order = λ chain q q' e. sym (ap (λ r. r.1) e);
  poll_order = λ limit q q' wcs e. sent_poll_order limit q q' wcs e;
}

abbrev some_server : Target
some_server = record { data_key = 2; flags = 2; ah = 9; qpn = 0x182 }

send_from_example :
    IsSent sent_device 5 (send_from sent_device 5 (client_arrays 5 some_server) [] 7)
send_from_example =
    send_from-IsSent sent_device sent_device-IsFifo 5 some_server [] 7 (omega arith) refl

sent_poll_lively :
    (q : List ℕ)
    → 0 < length q
    → (wcs : List Wc) × (q' : List ℕ) × (sent_poll 10 q ≡ (polled wcs, q'))
      × (0 < length wcs)
      × AllSucceed wcs
unfolding sent_poll
sent_poll_lively [] h = absurd (omega arith)
sent_poll_lively (i ∷ q) h = (_, q, refl, omega arith, (refl, tt))

sent_device-IsLively : IsLively sent_device
sent_device-IsLively = record { polls = sent_poll_lively; takes = λ chain q. refl }

send_from_progress_example :
    (s' : Client sent_device) × (total : ℕ) × (send_from sent_device 5
        (client_arrays 5 some_server)
        []
        7
      ≡ finished s')
    × (7 ≤ total)
    × IsSending sent_device 5 s' total
send_from_progress_example =
    send_from_progress sent_device sent_device-IsFifo sent_device-IsLively 5 (omega arith)
      some_server [] 7 refl

abbrev no_attr : QpAttr
no_attr = record { qp_state = QpState.reset; pkey_index = 3; port_num = 0; qkey = 0; sq_psn = 9 }

-- Libraries on which every call succeeds.
abbrev working : Env
working = record {
  devices = (109 ∷ 108 ∷ []) ∷ (114 ∷ 120 ∷ []) ∷ [];
  acquires = λ r. true;
  answers = λ q. true;
  releases = λ r. true;
  active_mtu = 5;
  max_inline_data = 64;
  data_key = 1;
  header_key = 2;
  ah_number = 7;
  queried_attr = no_attr;
  stack_attr = no_attr;
}

abbrev plain_parsers : Parsers
plain_parsers = record { atoi = λ t. length t; gid_after = λ t. replicate 16 1 }

abbrev five_words : List (List ℕ)
five_words = (99 ∷ []) ∷ (114 ∷ 120 ∷ []) ∷ (49 ∷ []) ∷ (50 ∷ []) ∷ (51 ∷ []) ∷ []

client_command-IsCommandRun_example :
    IsCommandRun working plain_parsers sent_device five_words true
      (client_command working plain_parsers sent_device five_words true [] (replicate 30 false))
client_command-IsCommandRun_example =
    client_command-IsCommandRun working plain_parsers (λ r. refl) sent_device sent_device-IsFifo
      five_words true [] (replicate 30 false) refl

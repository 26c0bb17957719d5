-- ===== src/Rdma/Request.antt =====
-- The work requests, chained through their `next` pointers. A pointer into the array of requests is
-- the index that it points to, and NULL is `none`.
use ibverb_prototype.Prelude.{ℕ, ◌≡◌, refl, Option}

-- `struct ibv_sge`; an address is the offset into the buffer that the entry's key registers.
pub record Sge : Type 0 where
  pub addr : ℕ
  pub size : ℕ
  pub lkey : ℕ

-- `struct ibv_recv_wr`; `sg_list` is the index of its first scatter-gather entry.
pub record RecvWr : Type 0 where
  pub wr_id : ℕ
  pub next : Option ℕ
  pub sg_list : ℕ
  pub num_sge : ℕ

-- `struct ibv_send_wr`, with the members that `rdma_init_client` sets. An address handle is the
-- number by which the library knows it.
pub record SendWr : Type 0 where
  pub wr_id : ℕ
  pub next : Option ℕ
  pub sg_list : ℕ
  pub num_sge : ℕ
  pub opcode : ℕ
  pub send_flags : ℕ
  pub ah : ℕ
  pub remote_qpn : ℕ
  pub remote_qkey : ℕ

-- What posting needs of a request: its identifier, and its pointer to the next one.
pub record Linked {ℓ} (A : Type ℓ) : Type ℓ where
  pub id : A → ℕ
  pub get_next : A → Option ℕ
  pub set_next : A → Option ℕ → A
  pub get-set : (a : A) (p : Option ℕ) → get_next (set_next a p) ≡ p
  pub id-set : (a : A) (p : Option ℕ) → id (set_next a p) ≡ id a
  pub set-set : (a : A) (p : Option ℕ) → set_next (set_next a p) (get_next a) ≡ a

instance abbrev pub recv_linked : Linked RecvWr
recv_linked = record {
  id = λ r. r.wr_id;
  get_next = λ r. r.next;
  set_next = λ r p. record r { next = p };
  get-set = λ r p. refl;
  id-set = λ r p. refl;
  set-set = λ r p. refl;
}

instance abbrev pub send_linked : Linked SendWr
send_linked = record {
  id = λ r. r.wr_id;
  get_next = λ r. r.next;
  set_next = λ r p. record r { next = p };
  get-set = λ r p. refl;
  id-set = λ r p. refl;
  set-set = λ r p. refl;
}

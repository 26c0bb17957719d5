-- ===== src/Rdma/Post.antt =====
-- `post_sends` and `post_recvs`: the array of requests is a circular buffer, of which a run of
-- requests is handed to the verbs library by cutting the chain behind its last one.
pub mod Ring
pub mod Window
use ibverb_prototype.Prelude.{
  ℕ, zero, suc, ◌+◌, ◌-◌, ◌%◌, ◌==◌, Bool, true, false, if◌then◌else◌, ◌||◌, Option, none, some,
  ◌>>=◌, List, [], ◌∷◌, get_elem?, length, set,
}
use ibverb_prototype.Rdma.Request.{Linked}

-- `last_idx`. With no request before it the index would be -1, and a queue of size 0 divides by 0.
unfoldable pub last_index : ℕ → ℕ → ℕ → Option ℕ
last_index queue_size start count =
    if start + count == 0 || queue_size == 0 then none else some ((start + count - 1) % queue_size)

module _ {ℓ} {A : Type ℓ} ⦃l : Linked A⦄ where
  -- The requests that a pointer to request i stands for: from it on up to a null pointer. The
  -- fuel is the number of requests that it may pass; a chain that does not end before has no
  -- such list, and neither has one that leaves the array.
  unfoldable pub walk : ℕ → List A → ℕ → Option (List A)
  walk zero rs i = none
  walk (suc fuel) rs i = get_elem? rs i >>= λ r. elim (l.get_next r) [
    | none ↦ some (r ∷ [])
    | some j ↦ walk fuel rs j >>= λ later. some (r ∷ later)
  ]

  -- The common text of the two functions over the library's `ibv_post_send` or `ibv_post_recv`,
  -- which takes the chain and tells whether it succeeds. The result is whether the function returns
  -- 0, the array afterwards and the library's state. `none` is an access out of the array.
  module _ {κ} {Q : Type κ} (ibv_post : List A → Q → Bool × Q) where
    unfoldable pub post : ℕ → ℕ → ℕ → List A → Q → Option (Bool × List A × Q)
    unfolding walk last_index
    post queue_size start count rs q = do
      last_idx ← last_index queue_size start count
      r ← get_elem? rs last_idx
      let cut = set rs last_idx (l.set_next r none)
      chain ← walk (length rs) cut start
      let (done, q') = ibv_post chain q
      r' ← get_elem? cut last_idx
      some (done, set cut last_idx (l.set_next r' (l.get_next r)), q')

-- ===== src/Rdma/Buffers/Layout.antt =====
-- The arrays that the loops fill: what stands at each index, and that it fits the buffers.
use ibverb_prototype.Prelude.{
  ℕ, zero, suc, ◌+◌, ◌-◌, ◌*◌, ◌%◌, ◌==◌, ◌≤◌, ◌<◌, ◌≡◌, inl, inr, refl, sym, ap, ◌∙◌, arith,
  Bool-cases, some, length, get_elem?,
}
use native.Mathlib.Nat.{mod-eq_of_lt, mod_self}
use ibverb_prototype.Packet.{msg_size}
use ibverb_prototype.Rdma.Request.{recv_linked, send_linked}
use ibverb_prototype.Rdma.Buffers.{
  grh_size, ring_next, ServerArrays, server_entry, server_fill, server_arrays,
}
use ibverb_prototype.Rdma.Post.Ring.{IsRing}

pub ring_next-mod : (n i : ℕ) → i < n → ring_next n i ≡ some ((i + 1) % n)
unfolding ring_next
ring_next-mod n i h = elim (Bool-cases (i == n - 1)) [
  | inl at_end ↦
      rw at_end
        (ap some (sym (ap (λ m. m % n) (let e : i + 1 ≡ n = ground arith in e) ∙ mod_self n)))
  | inr before ↦ rw before (ap some (sym (mod-eq_of_lt (ground arith))))
]

-- At index j the server's arrays hold the entries of request k.
pub record IsServerEntry (n header_key data_key j k : ℕ) (a : ServerArrays) : Type 0 where
  pub buffer :
      get_elem? a.buffers j
      ≡ some (record { header_buffer = k * grh_size; data_buffer = k * msg_size })
  pub header_sge :
      get_elem? a.scatter_gather (2 * j)
      ≡ some (record { addr = k * grh_size; size = 40; lkey = header_key })
  pub data_sge :
      get_elem? a.scatter_gather (2 * j + 1)
      ≡ some (record { addr = k * msg_size; size = msg_size; lkey = data_key })
  pub request :
      get_elem? a.recv_requests j
      ≡ some (record { wr_id = k; next = ring_next n k; sg_list = 2 * k; num_sge = 2 })

module _ (n header_key data_key : ℕ) where
  entry-first :
      (i : ℕ) (later : ServerArrays)
      → IsServerEntry n header_key data_key 0 i (server_entry n header_key data_key i later)
  unfolding server_entry
  entry-first i later = record { buffer = refl; header_sge = refl; data_sge = refl; request = refl }

  entry-later :
      (i j k : ℕ) (later : ServerArrays)
      → IsServerEntry n header_key data_key j k later
      → IsServerEntry n header_key data_key (suc j) k (server_entry n header_key data_key i later)
  unfolding server_entry
  entry-later i j k later e =
      let twice : 2 * suc j ≡ suc (suc (2 * j)) = omega arith in
      let twice_one : 2 * suc j + 1 ≡ suc (suc (2 * j + 1)) = omega arith in
      record {
        buffer = e.buffer;
        header_sge = rw twice e.header_sge;
        data_sge = rw twice_one e.data_sge;
        request = e.request;
      }

  server_fill-IsServerEntry :
      (left i j k : ℕ)
      → j < left
      → k ≡ i + j
      → IsServerEntry n header_key data_key j k (server_fill n header_key data_key left i)
  unfolding server_fill
  server_fill-IsServerEntry zero i j k h e = absurd (omega arith)
  server_fill-IsServerEntry (suc left) i zero k h e =
      let here : k ≡ i = omega arith in
      rw here (entry-first i (server_fill n header_key data_key left (i + 1)))
  server_fill-IsServerEntry (suc left) i (suc j) k h e =
      entry-later i j k (server_fill n header_key data_key left (i + 1))
        (server_fill-IsServerEntry left (i + 1) j k (omega arith) (omega arith))

  length-requests :
      (left i : ℕ) → length (server_fill n header_key data_key left i).recv_requests ≡ left
  unfolding server_fill
  length-requests zero i = refl
  length-requests (suc left) i = unfold server_entry in ap suc (length-requests left (i + 1))

  -- The receive requests of the server form a ring of n.
  pub server_arrays-IsRing : IsRing n (server_arrays n header_key data_key).recv_requests
  unfolding server_arrays
  server_arrays-IsRing = record {
    size = length-requests n 0;
    entry = λ i h. (
      record { wr_id = i; next = ring_next n i; sg_list = 2 * i; num_sge = 2 },
      (server_fill-IsServerEntry n 0 i i h (omega arith)).request,
      refl,
      ring_next-mod n i h,
    );
  }

  pub server_arrays-IsServerEntry :
      (i : ℕ)
      → i < n
      → IsServerEntry n header_key data_key i i (server_arrays n header_key data_key)
  unfolding server_arrays
  server_arrays-IsServerEntry i inside = server_fill-IsServerEntry n 0 i i inside (omega arith)

  -- Request i of the server, one of n: its two entries name piece i of the header buffer of 40 n
  -- bytes and of the data buffer of n messages, which are the pieces that `result[i]` points to.
  -- The pieces lie inside the buffers, and end before those of any later request begin.
  pub server_arrays-layout :
      (i j : ℕ)
      → i < j
      → j < n
      → IsServerEntry n header_key data_key i i (server_arrays n header_key data_key)
        × (i * grh_size + 40 ≤ j * grh_size)
        × (i * msg_size + msg_size ≤ j * msg_size)
        × (j * grh_size + 40 ≤ n * 40)
        × (j * msg_size + msg_size ≤ n * msg_size)
  server_arrays-layout i j before inside = (
    server_arrays-IsServerEntry i (omega arith),
    omega arith,
    omega arith,
    omega arith,
    omega arith,
  )

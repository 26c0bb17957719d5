-- ===== src/Signals.antt =====
-- The flag that the loops of the five programs test, and the handler of SIGINT that clears it, which
-- are the same in each of raw_ibverbs.c, raw_udp.c, udp.c, rdma_server.c and rdma_client.c.
mod Tests
use ibverb_prototype.Prelude.{
  ℕ, zero, suc, ◌≡◌, refl, ap, ◌==◌, Bool, true, false, if◌then◌else◌, List, [], ◌∷◌, ◌++◌, take,
  replicate,
}

-- The flag from the start.
abbrev pub packet_loop : ℕ
packet_loop = 1

-- The handler, as a function of the flag.
unfoldable pub stop_loop : ℕ → ℕ
stop_loop flag = 0

-- How often `while (flag)` finds the flag set. The list says for each test whether SIGINT has come
-- since the test before; behind its end the signal comes at the latest.
unfoldable pub loop_rounds_from : ℕ → List Bool → ℕ
unfolding stop_loop
loop_rounds_from flag [] = 0
loop_rounds_from flag (signalled ∷ later) =
    let flag' = if signalled then stop_loop flag else flag in
    let rest = loop_rounds_from flag' later in if flag' == 0 then 0 else suc rest

unfoldable pub loop_rounds : List Bool → ℕ
unfolding loop_rounds_from
loop_rounds signals = loop_rounds_from packet_loop signals

-- Of what a call would answer in each round, what it answers in those that the loop comes to.
abbrev pub reached {ℓ} : {A : Type ℓ} → List Bool → List A → List A
reached signals answers = take (loop_rounds signals) answers

-- ===== src/RawUdp/Program.antt =====
-- `main` of raw_udp.c: the signal handler, the arguments, the two addresses, and the sender.
use ibverb_prototype.Prelude.{
  ℕ, ◌^◌, ◌<◌, ◌≤◌, ◌≡◌, Bool, true, if◌then◌else◌, Option, none, some, List, [], ◌∷◌, length, take,
  All,
}
use ibverb_prototype.Crc.Correct.{IsByte}
use ibverb_prototype.LookupAddr.{
  Addr, Lookup, found, exit_failure, undefined, Interface, lookup_local_addr, lookup_remote_addr,
}
use ibverb_prototype.LookupAddr.Local.{IsIfAddr}
use ibverb_prototype.Signals.{reached}
use ibverb_prototype.RawUdp.{UdpEnd, udp_main}

-- The port, the host and the interface, "eth4" if none is given. `none` is the usage message.
unfoldable pub udp_args : List (List ℕ) → Option (List ℕ × List ℕ × List ℕ)
udp_args (program ∷ port ∷ host ∷ []) = some (port, host, b'e' ∷ b't' ∷ b'h' ∷ b'4' ∷ [])
udp_args (program ∷ port ∷ host ∷ ifname ∷ []) = some (port, host, ifname)
udp_args _ = none

-- What the system and the C library answer; `handler` is whether `sigaction` succeeds,
-- `signals` when SIGINT comes, and `sends` what each `sendto` would answer.
pub record UdpWorld : Type 0 where
  pub handler : Bool
  pub interfaces : Option (List Interface)
  pub resolve : List ℕ → Option ℕ
  pub arp_socket : Bool
  pub arp : ℕ → List ℕ → Option (List ℕ)
  pub atoi : List ℕ → ℕ
  pub has_index : List ℕ → Bool
  pub packet_socket : Bool
  pub signals : List Bool
  pub sends : List Bool

pub data UdpRun : Type 0 where
  stopped_early : UdpRun
  undefined_access : UdpRun
  ran : UdpEnd → UdpRun

unfoldable pub with_udp_addr : Lookup → (Addr → UdpRun) → UdpRun
with_udp_addr (found a) continue = continue a
with_udp_addr exit_failure continue = stopped_early
with_udp_addr undefined continue = undefined_access

unfoldable pub run_udp : UdpWorld → Option (List ℕ × List ℕ × List ℕ) → UdpRun
unfolding with_udp_addr lookup_local_addr lookup_remote_addr udp_main
run_udp w none = stopped_early
run_udp w (some (port, host, ifname)) =
    with_udp_addr (lookup_local_addr w.interfaces ifname) (λ local.
      with_udp_addr (lookup_remote_addr (w.resolve host) w.arp_socket w.arp ifname none) (λ remote.
        ran (
          udp_main (w.has_index ifname) w.packet_socket local remote (w.atoi port)
            (reached w.signals w.sends))))

unfoldable pub udp_program : UdpWorld → List (List ℕ) → UdpRun
unfolding run_udp udp_args
udp_program w args = if w.handler then run_udp w (udp_args args) else stopped_early

-- A system on which the lookups succeed, for the given host and interface.
pub record IsKnown (w : UdpWorld) (ifname host : List ℕ) (is : List Interface) (ipv4 : ℕ)
    (sa_data : List ℕ) : Type 0 where
  pub handler : w.handler ≡ true
  pub interfaces : w.interfaces ≡ some is
  pub addresses : All (λ (i : Interface). IsIfAddr i.address) is
  pub resolved : w.resolve host ≡ some ipv4
  pub arp_socket : w.arp_socket ≡ true
  pub in_table : w.arp ipv4 (take 16 ifname) ≡ some sa_data
  pub has_index : w.has_index ifname ≡ true
  pub packet_socket : w.packet_socket ≡ true
  pub word : ipv4 < 2 ^ 32
  pub hardware : (6 ≤ length sa_data) × All IsByte sa_data

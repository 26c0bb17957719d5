-- ===== src/RawIbverbs/Program.antt =====
-- `main` of raw_ibverbs.c: the signal handler, the arguments, the addresses, the headers, and the send
-- loop of the host or the call of the FPGA's.
use ibverb_prototype.Prelude.{
  ℕ, ◌^◌, ◌<◌, ◌≤◌, ◌≡◌, Bool, true, if◌then◌else◌, Option, none, some, List, [], ◌∷◌, length, take,
  bits, All,
}
use ibverb_prototype.Crc.Correct.{IsByte}
use ibverb_prototype.LookupAddr.{
  Addr, Lookup, found, exit_failure, undefined, Interface, lookup_local_addr, lookup_remote_addr,
  addr_from_strings,
}
use ibverb_prototype.LookupAddr.Local.{IsIfAddr}
use ibverb_prototype.Packet.{Packet}
use ibverb_prototype.Packet.Layout.{IsArray}
use ibverb_prototype.Text.{same_name}
use ibverb_prototype.RawIbverbs.{full_packet, init_invariant_headers}
use ibverb_prototype.Signals.{reached}
use ibverb_prototype.RawIbverbs.Send.{Ending}
use ibverb_prototype.RawIbverbs.EndToEnd.{host_main}

abbrev Text : Type 0
Text = List ℕ

-- "host", "fpga" and "eth4".
abbrev pub host_word : Text
host_word = b'h' ∷ b'o' ∷ b's' ∷ b't' ∷ []

abbrev pub fpga_word : Text
fpga_word = b'f' ∷ b'p' ∷ b'g' ∷ b'a' ∷ []

abbrev pub eth4 : Text
eth4 = b'e' ∷ b't' ∷ b'h' ∷ b'4' ∷ []

-- The three strings that `addr_from_strings` takes.
pub record AddrText : Type 0 where
  pub mac : Text
  pub ipv4 : Text
  pub gid : Text

-- What the arguments ask for. As a local address `none` stands for the three constants of the source,
-- "04:3f:72:d4:2f:7c", "10.149.5.104" and "fe80::63f:72ff:fed4:2f7c".
pub data Mode : Type 0 where
  host_mode : (ifname host gid qp : Text) → Mode
  fpga_mode : (local : Option AddrText) (remote : AddrText) (qp : Text) → Mode
  usage : Mode

-- The tests of the arguments, the program's name among them.
unfoldable pub parse_args : List Text → Mode
unfolding same_name
parse_args (program ∷ mode ∷ a ∷ b ∷ c ∷ []) =
    if same_name host_word mode then host_mode eth4 a b c else usage
parse_args (program ∷ mode ∷ a ∷ b ∷ c ∷ d ∷ []) =
    if same_name host_word mode
    then host_mode d a b c
    else (if same_name fpga_word mode
        then fpga_mode none (record { mac = a; ipv4 = b; gid = c }) d
        else usage)
parse_args (program ∷ mode ∷ a ∷ b ∷ c ∷ d ∷ e ∷ f ∷ g ∷ []) =
    if same_name fpga_word mode
    then fpga_mode (some (record { mac = a; ipv4 = b; gid = c }))
        (record { mac = d; ipv4 = e; gid = f }) g
    else usage
parse_args _ = usage

-- What the system and the C library answer: `handler` is whether `sigaction`
-- succeeds, `signals` when SIGINT comes, `sends` what each `sendto` would answer, and `own_addr` is what the three constants parse to.
pub record World : Type 0 where
  pub handler : Bool
  pub interfaces : Option (List Interface)
  pub resolve : Text → Option ℕ
  pub arp_socket : Bool
  pub arp : ℕ → Text → Option (List ℕ)
  pub parse_mac : Text → Option (List ℕ)
  pub parse_ipv4 : Text → Option ℕ
  pub parse_ipv6 : Text → Option (List ℕ)
  pub atoi : Text → ℕ
  pub has_index : Text → Bool
  pub own_addr : Addr
  pub packet_socket : Bool
  pub beyond : List ℕ
  pub signals : List Bool
  pub sends : List Bool

-- How `main` ends. The FPGA's loop is C++ code, which gets the packet and the checksum.
pub data Run : Type 0 where
  stopped_early : Run
  undefined_access : Run
  hosted : Ending → Run
  handed_over : Packet → ℕ → Run

module _ (w : World) where
  unfoldable pub with_addr : Lookup → (Addr → Run) → Run
  with_addr (found a) continue = continue a
  with_addr exit_failure continue = stopped_early
  with_addr undefined continue = undefined_access

  unfoldable pub host_run : Option Ending → Run
  host_run none = undefined_access
  host_run (some e) = hosted e

  unfoldable pub fpga_run : Option (ℕ × Packet) → Run
  fpga_run none = undefined_access
  fpga_run (some (header_crc, packet)) = handed_over packet header_crc

  unfoldable pub text_addr : AddrText → Lookup
  unfolding addr_from_strings
  text_addr t = addr_from_strings (w.parse_mac t.mac) (w.parse_ipv4 t.ipv4) (w.parse_ipv6 t.gid)

  unfoldable pub local_text_addr : Option AddrText → Lookup
  unfolding text_addr
  local_text_addr none = found w.own_addr
  local_text_addr (some t) = text_addr t

  unfoldable pub run_mode : Mode → Run
  unfolding with_addr host_run fpga_run local_text_addr lookup_local_addr lookup_remote_addr
  run_mode usage = stopped_early
  run_mode (host_mode ifname host gid qp) =
      with_addr (lookup_local_addr w.interfaces ifname) (λ local.
        with_addr (lookup_remote_addr (w.resolve host) w.arp_socket w.arp ifname (w.parse_ipv6 gid))
          (λ remote.
            if w.has_index ifname
            then host_run (
                host_main local remote (bits 32 (w.atoi qp)) w.packet_socket w.beyond
                  (reached w.signals w.sends))
            else stopped_early))
  run_mode (fpga_mode local remote qp) = with_addr (local_text_addr local) (λ local.
      with_addr (text_addr remote) (λ remote.
        fpga_run (init_invariant_headers full_packet local remote (bits 32 (w.atoi qp)))))

  unfoldable pub program : List Text → Run
  unfolding run_mode parse_args
  program args = if w.handler then run_mode (parse_args args) else stopped_early

-- A system on which the lookups of the host mode succeed, for the given arguments.
pub record IsReachable (w : World) (ifname host gid : Text) (is : List Interface) (ipv4 : ℕ)
    (sa_data ipv6 : List ℕ) : Type 0 where
  pub handler : w.handler ≡ true
  pub interfaces : w.interfaces ≡ some is
  pub addresses : All (λ (i : Interface). IsIfAddr i.address) is
  pub resolved : w.resolve host ≡ some ipv4
  pub arp_socket : w.arp_socket ≡ true
  pub in_table : w.arp ipv4 (take 16 ifname) ≡ some sa_data
  pub parsed : w.parse_ipv6 gid ≡ some ipv6
  pub has_index : w.has_index ifname ≡ true
  pub packet_socket : w.packet_socket ≡ true
  pub word : ipv4 < 2 ^ 32
  pub hardware : (6 ≤ length sa_data) × All IsByte sa_data
  pub gid_bytes : IsArray 16 ipv6
  pub beyond : length w.beyond ≡ 4

-- ===== src/RawUdp.antt =====
-- raw_udp.c: UDP packets sent through a raw socket, with the headers and the IPv4 checksum made by
-- hand. `struct iphdr` and `struct udphdr` are the system's, as a little-endian host lays them out.
pub mod Check
pub mod Verify
pub mod Bag
pub mod Frame
pub mod Datagram
pub mod Program
mod Tests
use ibverb_prototype.Prelude.{
  ℕ, zero, suc, ◌+◌, ◌-◌, ◌*◌, ◌/◌, ◌%◌, ◌^◌, ltb, leb, Bool, true, false, if◌then◌else◌, Option,
  none, some, ◌>>=◌, List, [], ◌∷◌, ◌++◌, take, replicate, memcpy, bits, le_bytes, htons, htonl,
}
use ibverb_prototype.LookupAddr.{Addr}
use ibverb_prototype.Packet.{EthHdr, eth_bytes}
use ibverb_prototype.Text.{message, snprintf}

-- `struct iphdr`, whose first byte is two bit fields.
pub record IpHdr : Type 0 where
  pub ihl : ℕ
  pub version : ℕ
  pub tos : ℕ
  pub tot_len : ℕ
  pub id : ℕ
  pub frag_off : ℕ
  pub ttl : ℕ
  pub protocol : ℕ
  pub check : ℕ
  pub saddr : ℕ
  pub daddr : ℕ

-- `struct udphdr`.
pub record UdpHdr : Type 0 where
  pub source : ℕ
  pub dest : ℕ
  pub len : ℕ
  pub check : ℕ

-- `ether_buffer`, divided as the static pointers into it divide it.
pub record Buffer : Type 0 where
  pub ether_header : EthHdr
  pub ip_header : IpHdr
  pub udp_header : UdpHdr
  pub udp_data : List ℕ

unfoldable pub ip_bytes : IpHdr → List ℕ
ip_bytes h =
    (h.ihl + h.version * 2 ^ 4)
    ∷ h.tos
    ∷ (le_bytes 2 h.tot_len
        ++ (le_bytes 2 h.id
            ++ (le_bytes 2 h.frag_off
                ++ (h.ttl
                    ∷ h.protocol
                    ∷ (le_bytes 2 h.check ++ (le_bytes 4 h.saddr ++ le_bytes 4 h.daddr))))))

unfoldable pub udp_bytes : UdpHdr → List ℕ
udp_bytes h = le_bytes 2 h.source ++ (le_bytes 2 h.dest ++ (le_bytes 2 h.len ++ le_bytes 2 h.check))

unfoldable pub buffer_bytes : Buffer → List ℕ
unfolding eth_bytes ip_bytes udp_bytes
buffer_bytes b =
    eth_bytes b.ether_header ++ (ip_bytes b.ip_header ++ (udp_bytes b.udp_header ++ b.udp_data))

-- `header_size`, and `max_msg_size`, which leaves IP_MAXPACKET bytes in all.
abbrev pub header_size : ℕ
header_size = 42

abbrev pub max_msg_size : ℕ
max_msg_size = 65493

-- The loop of `ipv4check` with n rounds left. `none` is a read behind the data, or an overflow of
-- the `int32_t`.
unfoldable pub sum_words : ℕ → ℕ → List ℕ → Option ℕ
sum_words zero sum bytes = some sum
sum_words (suc n) sum [] = none
sum_words (suc n) sum (low ∷ []) = none
sum_words (suc n) sum (low ∷ high ∷ bytes) =
    let sum' = sum + (low + high * 2 ^ 8) in
    let rest = sum_words n sum' bytes in if ltb sum' (2 ^ 31) then rest else none

-- The two additions of the carries.
unfoldable pub fold_carries : ℕ → ℕ
fold_carries sum = let folded = sum / 2 ^ 16 + sum % 2 ^ 16 in folded + folded / 2 ^ 16

-- `ipv4check`. The complement of a number that is not negative has the complement's low bits.
unfoldable pub ipv4check : List ℕ → ℕ → Option ℕ
unfolding sum_words fold_carries
ipv4check bytes n =
    sum_words (1 + (n - 1) / 2) 0 bytes >>= λ sum. some (2 ^ 16 - 1 - fold_carries sum % 2 ^ 16)

-- `ether_buffer`, static storage that starts as zeros.
unfoldable pub ether_buffer : Buffer
ether_buffer = record {
  ether_header = record { h_dest = replicate 6 0; h_source = replicate 6 0; h_proto = 0 };
  ip_header = record {
    ihl = 0;
    version = 0;
    tos = 0;
    tot_len = 0;
    id = 0;
    frag_off = 0;
    ttl = 0;
    protocol = 0;
    check = 0;
    saddr = 0;
    daddr = 0;
  };
  udp_header = record { source = 0; dest = 0; len = 0; check = 0 };
  udp_data = replicate max_msg_size 0;
}

-- The assignments of `main` before the loop; `port` is what `atoi` returns.
unfoldable pub set_udp_headers : Buffer → Addr → Addr → ℕ → Buffer
set_udp_headers b local remote port =
    let eth = b.ether_header in
    let ip = b.ip_header in
    let udp = b.udp_header in
    record b {
      ether_header = record eth {
        h_proto = htons 0x0800;
        h_dest = memcpy eth.h_dest remote.mac 6;
        h_source = memcpy eth.h_source local.mac 6;
      };
      ip_header = record ip {
        ihl = bits 4 5;
        version = bits 4 4;
        tos = bits 8 0;
        id = bits 16 (htonl 54321);
        frag_off = bits 16 0;
        ttl = bits 8 255;
        protocol = bits 8 17;
        daddr = remote.ipv4;
        saddr = local.ipv4;
      };
      udp_header = record udp {
        dest = htons (bits 16 port);
        source = htons 4242;
        check = bits 16 0;
      };
    }

-- The buffer, `count`, and the frames sent so far, oldest first.
pub record UdpSender : Type 0 where
  pub buffer : Buffer
  pub count : ℕ
  pub frames : List (List ℕ)

-- How `main` ends: by the flag, or by one of its calls of `exit`.
pub data UdpFailure : Type 0 where
  no_interface no_socket no_message not_sent outside : UdpFailure

pub data UdpEnd : Type 0 where
  stopped : UdpSender → UdpEnd
  failed : UdpFailure → UdpSender → UdpEnd

-- The lengths, of a message of `size` bytes, with the checksum field cleared.
unfoldable pub set_lengths : ℕ → Buffer → Buffer
set_lengths size b =
    let ip = b.ip_header in
    let udp = b.udp_header in
    let total_length : ℕ = bits 16 (header_size + size) in
    let ip_length : ℕ = bits 16 (total_length + 2 ^ 64 - 14) in
    record b {
      ip_header = record ip { tot_len = htons ip_length; check = 0 };
      udp_header = record udp { len = htons (bits 16 (8 + size)) };
    }

-- After `ipv4check`: the checksum is stored, and the frame handed over if `sent`.
unfoldable pub send_datagram : ℕ → UdpSender → (UdpSender → UdpEnd) → Bool → Option ℕ → UdpEnd
send_datagram size s continue sent none = failed outside s
send_datagram size s continue sent (some answer) =
    let b = s.buffer in
    let ip = s.buffer.ip_header in
    let b' = record b { ip_header = record ip { check = answer } } in
    let frame = take (bits 16 (header_size + size)) (buffer_bytes b') in
    if sent
    then continue (record s { buffer = b'; frames = s.frames ++ (frame ∷ []) })
    else failed not_sent (record s { buffer = b' })

-- After `snprintf`, given its result and the data that it leaves.
unfoldable pub send_text : UdpSender → (UdpSender → UdpEnd) → Bool → ℕ × List ℕ → UdpEnd
unfolding send_datagram set_lengths ipv4check
send_text s continue sent (size, filled) =
    let b = s.buffer in
    let b' = set_lengths size (record b { udp_data = filled }) in
    let s' = record s { buffer = b'; count = s.count + 1 } in
    if leb max_msg_size size
    then failed no_message
        (record s { buffer = record b { udp_data = filled }; count = s.count + 1 })
    else send_datagram size s' continue sent (ipv4check (ip_bytes b'.ip_header) 20)

-- The loop of `main`, with whether each round's `sendto` succeeds.
unfoldable pub udp_loop : UdpSender → List Bool → UdpEnd
unfolding send_text
udp_loop s [] = stopped s
udp_loop s (sent ∷ rounds) =
    send_text s (λ s'. udp_loop s' rounds) sent
      (snprintf s.buffer.udp_data max_msg_size (message s.count))

-- `main` after the lookup of the two addresses; the first two arguments are whether
-- `if_nametoindex` and `socket` succeed.
unfoldable pub udp_main : Bool → Bool → Addr → Addr → ℕ → List Bool → UdpEnd
unfolding udp_loop set_udp_headers ether_buffer
udp_main found socket local remote port rounds =
    let s : UdpSender = record { buffer = ether_buffer; count = 0; frames = [] } in
    let b = set_udp_headers ether_buffer local remote port in
    let s' : UdpSender = record { buffer = b; count = 0; frames = [] } in
    if found
    then (if socket then udp_loop s' rounds else failed no_socket s')
    else failed no_interface s

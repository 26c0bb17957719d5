-- ===== src/LookupAddr/Remote.antt =====
-- The addresses of a remote host, and those given as text, when all that is asked for is there.
use ibverb_prototype.Prelude.{
  ℕ, ◌^◌, ◌≤◌, ◌<◌, ◌≡◌, refl, ap, true, Option, none, some, List, length, replicate, take,
  memcpy_whole, All,
}
use ibverb_prototype.Crc.Correct.{IsByte}
use ibverb_prototype.Packet.Layout.{IsArray}
use ibverb_prototype.LookupAddr.{
  Addr, IsAddr, no_addr, found, parse_ipv6, remote_found, lookup_remote_addr, addr_from_strings,
}
use ibverb_prototype.LookupAddr.Local.{memcpy_mac, mac-IsArray}

-- The address of a host with the given hardware address in the ARP table.
abbrev pub remote_addr : ℕ → List ℕ → List ℕ → Addr
remote_addr ipv4 sa_data ipv6 = record { mac = take 6 sa_data; ipv4 = ipv4; ipv6 = ipv6 }

pub remote_addr-IsAddr :
    (ipv4 : ℕ) (sa_data ipv6 : List ℕ)
    → ipv4 < 2 ^ 32
    → 6 ≤ length sa_data
    → All IsByte sa_data
    → IsArray 16 ipv6
    → IsAddr (remote_addr ipv4 sa_data ipv6)
remote_addr-IsAddr ipv4 sa_data ipv6 h l b a = record {
  mac = mac-IsArray sa_data l b;
  ipv4 = h;
  ipv6 = a;
}

pub lookup_remote_addr-remote_addr :
    (ipv4 : ℕ) (arp : ℕ → List ℕ → Option (List ℕ)) (interface sa_data ipv6 : List ℕ)
    → arp ipv4 (take 16 interface) ≡ some sa_data
    → lookup_remote_addr (some ipv4) true arp interface (some ipv6)
      ≡ found (remote_addr ipv4 sa_data ipv6)
unfolding lookup_remote_addr remote_found parse_ipv6 no_addr
lookup_remote_addr-remote_addr ipv4 arp interface sa_data ipv6 e = rw e (
    ap (λ l. found (record { mac = l; ipv4 = ipv4; ipv6 = ipv6 }))
      (memcpy_mac (replicate 6 0) sa_data refl))

pub addr_from_strings-found :
    (mac ipv6 : List ℕ) (ipv4 : ℕ)
    → IsArray 6 mac
    → addr_from_strings (some mac) (some ipv4) (some ipv6)
      ≡ found (record { mac = mac; ipv4 = ipv4; ipv6 = ipv6 })
unfolding addr_from_strings parse_ipv6 no_addr
addr_from_strings-found mac ipv6 ipv4 m =
    ap (λ l. found (record { mac = l; ipv4 = ipv4; ipv6 = ipv6 }))
      (memcpy_whole (replicate 6 0) mac 6 m.0 refl)

pub lookup_remote_addr-no_ipv6 :
    (ipv4 : ℕ) (arp : ℕ → List ℕ → Option (List ℕ)) (interface sa_data : List ℕ)
    → arp ipv4 (take 16 interface) ≡ some sa_data
    → lookup_remote_addr (some ipv4) true arp interface none
      ≡ found (remote_addr ipv4 sa_data (replicate 16 0))
unfolding lookup_remote_addr remote_found parse_ipv6 no_addr
lookup_remote_addr-no_ipv6 ipv4 arp interface sa_data e = rw e (
    ap (λ l. found (record { mac = l; ipv4 = ipv4; ipv6 = replicate 16 0 }))
      (memcpy_mac (replicate 6 0) sa_data refl))

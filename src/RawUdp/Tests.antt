-- ===== src/RawUdp/Tests.antt =====
-- The theorems at small inputs, and the checksum of a header.
use ibverb_prototype.Prelude.{
  ◌-◌, ◌^◌, ◌≡◌, refl, sym, ap, ◌∙◌, arith, true, false, some, List, [], ◌∷◌,
}
use mathlib.Core.List.Perm
use mathlib.Core.Quot
use ibverb_prototype.LookupAddr.{Interface, inet}
use ibverb_prototype.RawUdp.Program.{UdpWorld}
use ibverb_prototype.RawUdp.{IpHdr, ip_bytes, ipv4check}
use ibverb_prototype.RawUdp.Check.{ones_sum, ipv4check-ones_sum}
use ibverb_prototype.RawUdp.Bag.{words, bag, checksum, ipv4check-bag}
use ibverb_prototype.RawUdp.Verify.{IsIpHdr, ipv4check-verifies}

-- The carry of 0xffff + 0x0002 comes round.
carries : ipv4check (255 ∷ 255 ∷ 2 ∷ 0 ∷ []) 4 ≡ some 0xfffd
unfolding ipv4check
carries = refl

ipv4check-ones_sum_example :
    ipv4check (255 ∷ 255 ∷ 2 ∷ 0 ∷ []) 4 ≡ some (2 ^ 16 - 1 - ones_sum (255 ∷ 255 ∷ 2 ∷ 0 ∷ []))
ipv4check-ones_sum_example =
    ipv4check-ones_sum (255 ∷ 255 ∷ 2 ∷ 0 ∷ []) 1 refl (omega arith) (omega arith)

abbrev some_header : IpHdr
some_header = record {
  ihl = 5;
  version = 4;
  tos = 0;
  tot_len = 0x2600;
  id = 0;
  frag_off = 0;
  ttl = 255;
  protocol = 17;
  check = 7;
  saddr = 0x0100a8c0;
  daddr = 0x0200a8c0;
}

some_header-IsIpHdr : IsIpHdr some_header
some_header-IsIpHdr = omega arith

ipv4check-verifies_example :
    ipv4check (ip_bytes (record some_header { check = 0x733a })) 20 ≡ some 0
unfolding ipv4check ip_bytes
ipv4check-verifies_example = ipv4check-verifies some_header 0x733a some_header-IsIpHdr refl

-- Two words that have changed places.
exchanged : bag (words (255 ∷ 255 ∷ 2 ∷ 0 ∷ [])) ≡ bag (words (2 ∷ 0 ∷ 255 ∷ 255 ∷ []))
unfolding words
exchanged = Quot.sound (Perm.swap 2 65535 [])

ipv4check-bag_example :
    ipv4check (255 ∷ 255 ∷ 2 ∷ 0 ∷ []) 4 ≡ some (checksum (bag (words (255 ∷ 255 ∷ 2 ∷ 0 ∷ []))))
ipv4check-bag_example = ipv4check-bag (255 ∷ 255 ∷ 2 ∷ 0 ∷ []) 1 refl (omega arith) (omega arith)

-- The answer does not show the exchange.
exchanged_answer :
    ipv4check (2 ∷ 0 ∷ 255 ∷ 255 ∷ []) 4 ≡ some (checksum (bag (words (255 ∷ 255 ∷ 2 ∷ 0 ∷ []))))
exchanged_answer =
    ipv4check-bag (2 ∷ 0 ∷ 255 ∷ 255 ∷ []) 1 refl (omega arith) (omega arith)
    ∙ ap (λ b. some (checksum b)) (sym exchanged)

-- A system with one interface, on which all that is asked for is found.
lone_interface : List Interface
lone_interface = record { name = 101 ∷ []; address = inet 0x0100a8c0 } ∷ []

small_system : UdpWorld
unfolding lone_interface
small_system = record {
  handler = true;
  interfaces = some lone_interface;
  resolve = λ host. some 0x0200a8c0;
  arp_socket = true;
  arp = λ ipv4 device. some (1 ∷ 2 ∷ 3 ∷ 4 ∷ 5 ∷ 6 ∷ 0 ∷ 0 ∷ []);
  atoi = λ t. 9000;
  has_index = λ t. true;
  packet_socket = true;
  signals = false ∷ false ∷ [];
  sends = true ∷ false ∷ [];
}

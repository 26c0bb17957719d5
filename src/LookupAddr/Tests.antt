-- ===== src/LookupAddr/Tests.antt =====
-- The local address over a short list of interfaces.
use ibverb_prototype.Prelude.{ℕ, ◌≡◌, refl, arith, some, List, [], ◌∷◌}
use ibverb_prototype.Text.{same_name}
use ibverb_prototype.LookupAddr.{Interface, inet, packet, no_addr, found, lookup_local_addr, IsAddr}
use ibverb_prototype.LookupAddr.Local.{newest_addr, lookup_local_addr-newest_addr}

eth : List ℕ
eth = 101 ∷ 116 ∷ 104 ∷ []

-- Two IPv4 addresses of eth, of which the later counts, and one of another interface.
interfaces : List Interface
unfolding eth
interfaces =
    record { name = eth; address = packet (1 ∷ 2 ∷ 3 ∷ 4 ∷ 5 ∷ 6 ∷ 0 ∷ 0 ∷ []) }
    ∷ record { name = eth; address = inet 7 }
    ∷ record { name = 108 ∷ 111 ∷ []; address = inet 8 }
    ∷ record { name = eth; address = inet 9 }
    ∷ []

lookup_local_addr-newest_addr_example :
    (lookup_local_addr (some interfaces) eth ≡ found (newest_addr eth interfaces no_addr))
    × IsAddr (newest_addr eth interfaces no_addr)
unfolding interfaces
lookup_local_addr-newest_addr_example = lookup_local_addr-newest_addr eth interfaces (omega arith)

the_later_counts : (newest_addr eth interfaces no_addr).ipv4 ≡ 9
unfolding newest_addr interfaces eth same_name
the_later_counts = refl

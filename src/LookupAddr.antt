-- ===== src/LookupAddr.antt =====
-- lookup_addr.h and lookup_addr.c: a host's addresses, looked up or given as text. The resolver, the ARP
-- table, the list of the interfaces and the conversions of text are parameters.
pub mod Local
pub mod Remote
mod Tests
use ibverb_prototype.Prelude.{
  ℕ, ◌^◌, ◌<◌, Bool, true, false, if◌then◌else◌, Option, none, some, ◌>>=◌, List, [], ◌∷◌,
  replicate, memcpy, take,
}
use ibverb_prototype.Packet.Layout.{IsArray}
use ibverb_prototype.Text.{same_name}

-- `struct addr`: the hardware address, the IPv4 address as the wire's four bytes in one number,
-- and the IPv6 address.
pub record Addr : Type 0 where
  pub mac : List ℕ
  pub ipv4 : ℕ
  pub ipv6 : List ℕ

-- A filled struct: arrays of their lengths, a 32-bit address.
pub record IsAddr (a : Addr) : Type 0 where
  pub mac : IsArray 6 a.mac
  pub ipv4 : a.ipv4 < 2 ^ 32
  pub ipv6 : IsArray 16 a.ipv6

-- `struct addr x = { 0 }`.
unfoldable pub no_addr : Addr
no_addr = record { mac = replicate 6 0; ipv4 = 0; ipv6 = replicate 16 0 }

-- What a lookup comes to: an address, `exit`, or an access that C leaves undefined.
pub data Lookup : Type 0 where
  found : Addr → Lookup
  exit_failure : Lookup
  undefined : Lookup

-- A line of `print_addr`: the address that `inet_ntop` or `ether_ntoa` renders.
pub data AddrLine : Type 0 where
  ipv4_line : ℕ → AddrLine
  ipv6_line mac_line : List ℕ → AddrLine

unfoldable pub print_addr : Addr → List AddrLine
print_addr a = ipv4_line a.ipv4 ∷ ipv6_line a.ipv6 ∷ mac_line (memcpy (replicate 6 0) a.mac 6) ∷ []

-- `ifa_addr` of an entry: NULL, or an address by its family.
pub data IfAddr : Type 0 where
  unset : IfAddr
  inet : ℕ → IfAddr
  inet6 : List ℕ → IfAddr
  packet : List ℕ → IfAddr
  other_family : IfAddr

-- `struct ifaddrs`.
pub record Interface : Type 0 where
  pub name : List ℕ
  pub address : IfAddr

-- The switch on the family.
unfoldable pub take_address : IfAddr → Addr → Option Addr
take_address unset a = none
take_address (inet ipv4) a = some (record a { ipv4 = ipv4 })
take_address (inet6 ipv6) a = some (record a { ipv6 = memcpy a.ipv6 ipv6 16 })
take_address (packet mac) a = some (record a { mac = memcpy a.mac mac 6 })
take_address other_family a = some a

-- The body of the loop; the first argument is whether the name is the interface's.
unfoldable pub take_interface : Bool → IfAddr → Addr → Option Addr
unfolding take_address
take_interface false address a = some a
take_interface true address a = take_address address a

-- The loop over the interfaces.
unfoldable pub scan : List ℕ → List Interface → Addr → Option Addr
unfolding take_interface
scan interface [] a = some a
scan interface (i ∷ is) a =
    take_interface (same_name interface i.name) i.address a >>= λ a'. scan interface is a'

unfoldable pub returned_addr : Option Addr → Lookup
returned_addr none = undefined
returned_addr (some a) = found a

-- `lookup_local_addr`, over what `getifaddrs` returns.
unfoldable pub lookup_local_addr : Option (List Interface) → List ℕ → Lookup
unfolding scan returned_addr no_addr
lookup_local_addr none interface = exit_failure
lookup_local_addr (some interfaces) interface = returned_addr (scan interface interfaces no_addr)

-- `inet_pton(AF_INET6, …)` into a member: what does not parse leaves it.
unfoldable pub parse_ipv6 : Option (List ℕ) → Addr → Addr
parse_ipv6 none a = a
parse_ipv6 (some ipv6) a = record a { ipv6 = ipv6 }

-- The end of `lookup_remote_addr`, with the answer of the ARP table.
unfoldable pub remote_found : ℕ → Option (List ℕ) → Option (List ℕ) → Lookup
unfolding parse_ipv6 no_addr
remote_found ipv4 none ipv6 = exit_failure
remote_found ipv4 (some sa_data) ipv6 =
    let a = no_addr in
    found (parse_ipv6 ipv6 (record a { mac = memcpy a.mac sa_data 6; ipv4 = ipv4 }))

-- `lookup_remote_addr`: `resolved` is what `getaddrinfo` finds, whose failure leaves `res`
-- undefined; `socket` whether the socket is made; `arp` the table, asked for an address and the name
-- of a device, which is cut to IFNAMSIZ; `ipv6` the address that the argument stands for, if any.
unfoldable pub lookup_remote_addr :
    Option ℕ → Bool → (ℕ → List ℕ → Option (List ℕ)) → List ℕ → Option (List ℕ) → Lookup
unfolding remote_found
lookup_remote_addr none socket arp interface ipv6 = undefined
lookup_remote_addr (some ipv4) socket arp interface ipv6 =
    if socket then remote_found ipv4 (arp ipv4 (take 16 interface)) ipv6 else exit_failure

-- `addr_from_strings`, over what `ether_aton` and the two calls of `inet_pton` make of the strings.
unfoldable pub addr_from_strings : Option (List ℕ) → Option ℕ → Option (List ℕ) → Lookup
unfolding parse_ipv6 no_addr
addr_from_strings none ipv4 gid = undefined
addr_from_strings (some ether) ipv4 gid =
    let a = no_addr in
    let v : ℕ = elim ipv4 [ none ↦ 0 | some v ↦ v ] in
    found (parse_ipv6 gid (record a { mac = memcpy a.mac ether 6; ipv4 = v }))

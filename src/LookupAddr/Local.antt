-- ===== src/LookupAddr/Local.antt =====
-- `lookup_local_addr` against the last address of each family in the list.
use ibverb_prototype.Prelude.{
  ℕ, ◌^◌, ◌≤◌, ◌<◌, ◌≡◌, refl, sym, ap, ◌∙◌, arith, Bool, true, false, Option, none, some, List, [],
  ◌∷◌, ◌++◌, memcpy, memcpy_whole, take, drop, drop-all, length, length-take, All, All-take,
  append-nil,
}
use ibverb_prototype.Crc.Correct.{IsByte}
use ibverb_prototype.Packet.Layout.{IsArray}
use ibverb_prototype.Text.{same_name}
use ibverb_prototype.LookupAddr.{
  Addr, IsAddr, no_addr, found, IfAddr, unset, inet, inet6, packet, other_family, Interface,
  take_address, take_interface, scan, returned_addr, lookup_local_addr,
}

abbrev default {ℓ} : {A : Type ℓ} → Option A → A → A
default none d = d
default (some a) d = a

abbrev or_else {ℓ} : {A : Type ℓ} → Option A → Option A → Option A
or_else none y = y
or_else (some a) y = some a

default-or_else {ℓ} :
    {A : Type ℓ} (x y : Option A) (d : A) → default (or_else x y) d ≡ default x (default y d)
default-or_else none y d = refl
default-or_else (some a) y d = refl

-- The address of each family that an entry has.
abbrev ipv4_of : IfAddr → Option ℕ
ipv4_of (inet a) = some a
ipv4_of _ = none

abbrev ipv6_of : IfAddr → Option (List ℕ)
ipv6_of (inet6 a) = some a
ipv6_of _ = none

abbrev mac_of : IfAddr → Option (List ℕ)
mac_of (packet a) = some (take 6 a)
mac_of _ = none

-- What an entry of the interface contributes.
abbrev picked {ℓ} : {A : Type ℓ} → (IfAddr → Option A) → Bool → IfAddr → Option A
picked pick true a = pick a
picked pick false a = none

-- The last address of a family that the interface has.
unfoldable pub newest {ℓ} : {A : Type ℓ} → (IfAddr → Option A) → List ℕ → List Interface → Option A
newest pick interface [] = none
newest pick interface (i ∷ is) =
    or_else (newest pick interface is) (picked pick (same_name interface i.name) i.address)

-- These addresses, and those of a for the families that the interface does not have.
unfoldable pub newest_addr : List ℕ → List Interface → Addr → Addr
unfolding newest
newest_addr interface is a = record {
  mac = default (newest mac_of interface is) a.mac;
  ipv4 = default (newest ipv4_of interface is) a.ipv4;
  ipv6 = default (newest ipv6_of interface is) a.ipv6;
}

-- An address that is there, and as large as its family's addresses are; a hardware address may
-- be longer.
abbrev pub IsIfAddr : IfAddr → Type 0
IsIfAddr unset = ⊥
IsIfAddr (inet a) = a < 2 ^ 32
IsIfAddr (inet6 a) = IsArray 16 a
IsIfAddr (packet a) = (6 ≤ length a) × All IsByte a
IsIfAddr other_family = Unit

-- The address after one entry.
abbrev next_addr : Bool → IfAddr → Addr → Addr
next_addr b i a = record {
  mac = default (picked mac_of b i) a.mac;
  ipv4 = default (picked ipv4_of b i) a.ipv4;
  ipv6 = default (picked ipv6_of b i) a.ipv6;
}

pub memcpy_mac : (old sa : List ℕ) → length old ≡ 6 → memcpy old sa 6 ≡ take 6 sa
unfolding memcpy
memcpy_mac old sa l =
    ap (λ r. take 6 sa ++ r) (ap (λ n. drop n old) (sym l) ∙ drop-all old) ∙ append-nil (take 6 sa)

pub mac-IsArray : (sa : List ℕ) → 6 ≤ length sa → All IsByte sa → IsArray 6 (take 6 sa)
mac-IsArray sa h b = (omega (arith, length-take 6 sa), All-take IsByte 6 sa b)

take_interface-next_addr :
    (b : Bool) (i : IfAddr) (a : Addr)
    → IsIfAddr i
    → IsAddr a
    → (take_interface b i a ≡ some (next_addr b i a)) × IsAddr (next_addr b i a)
unfolding take_interface take_address
take_interface-next_addr false i a h v = (refl, v)
take_interface-next_addr true unset a h v = absurd h
take_interface-next_addr true (inet ipv4) a h v =
    (refl, record { mac = v.mac; ipv4 = h; ipv6 = v.ipv6 })
take_interface-next_addr true (inet6 ipv6) a h v = (
  ap (λ l. some (record a { ipv6 = l })) (memcpy_whole a.ipv6 ipv6 16 h.0 v.ipv6.0),
  record { mac = v.mac; ipv4 = v.ipv4; ipv6 = h },
)
take_interface-next_addr true (packet mac) a h v = (
  ap (λ l. some (record a { mac = l })) (memcpy_mac a.mac mac v.mac.0),
  record { mac = mac-IsArray mac h.0 h.1; ipv4 = v.ipv4; ipv6 = v.ipv6 },
)
take_interface-next_addr true other_family a h v = (refl, v)

scan-newest_addr :
    (interface : List ℕ) (is : List Interface) (a : Addr)
    → All (λ (i : Interface). IsIfAddr i.address) is
    → IsAddr a
    → (scan interface is a ≡ some (newest_addr interface is a))
      × IsAddr (newest_addr interface is a)
unfolding scan newest_addr newest
scan-newest_addr interface [] a h v = (refl, v)
scan-newest_addr interface (i ∷ is) a (h, hs) v =
    let b : Bool = same_name interface i.name in
    let here = take_interface-next_addr b i.address a h v in
    let later = scan-newest_addr interface is (next_addr b i.address a) hs here.1 in
    rw
      (
        default-or_else (newest mac_of interface is) (picked mac_of b i.address) a.mac,
        default-or_else (newest ipv4_of interface is) (picked ipv4_of b i.address) a.ipv4,
        default-or_else (newest ipv6_of interface is) (picked ipv6_of b i.address) a.ipv6,
        here.0,
      )
      later

pub no_addr-IsAddr : IsAddr no_addr
unfolding no_addr
no_addr-IsAddr = omega arith

-- When every interface of the list has an address, of the size that its family's addresses have: the
-- local address is found, it has of each family the last address of the given interface in the list, cut
-- to six bytes for the hardware address, and zeros for the families that the interface does not have;
-- and its members are in their ranges.
pub lookup_local_addr-newest_addr :
    (interface : List ℕ) (is : List Interface)
    → All (λ (i : Interface). IsIfAddr i.address) is
    → (lookup_local_addr (some is) interface ≡ found (newest_addr interface is no_addr))
      × IsAddr (newest_addr interface is no_addr)
unfolding lookup_local_addr returned_addr
lookup_local_addr-newest_addr interface is h =
    let all = scan-newest_addr interface is no_addr h no_addr-IsAddr in
    (ap returned_addr all.0, all.1)

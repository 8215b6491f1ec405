-- ===== src/Network/Subnets.antt =====
-- internal/backend/cloudhypervisor/network.go: which /24 a new network takes.
pub mod Laws
use fleetbox.Base.{
  ℕ, zero, suc, ◌+◌, Bool, true, false, Option, none, some, List, [], ◌∷◌, ◌==◌, if◌then◌else◌,
  keep, any,
}
use fleetbox.Network.Addr.{overlaps, candidate, private_range, Prefix}

-- `occupiedPrivatePrefixes`, over the prefixes of the host's interfaces.
unfoldable pub occupied_private : List Prefix → List Prefix
occupied_private = keep (λ p. overlaps private_range p)

-- `reservedSubnets`, by the third byte of each network in it.
unfoldable pub reserved_octet : List ℕ → ℕ → Bool
reserved_octet [] o = false
reserved_octet (x ∷ xs) o = elim (x == o) [ true ↦ true | false ↦ reserved_octet xs o ]

-- The loop, with the rounds that are left.
unfoldable pub try_octets : ℕ → ℕ → List Prefix → List ℕ → Option ℕ
try_octets zero octet occupied used = none
try_octets (suc left) octet occupied used =
    let next = try_octets left (octet + 1) occupied used in
    if reserved_octet used octet
    then next
    else if any (λ p. overlaps (candidate octet) p) occupied
    then next
    else some octet

-- `detectFreeIPv4Subnet`: the map of reserved networks, and the third byte of the one that is taken.
unfoldable pub detect_free_subnet : List Prefix → List ℕ → List ℕ × Option ℕ
detect_free_subnet ifaces used = elim (try_octets 256 0 (occupied_private ifaces) used) [
  | none ↦ (used, none)
  | some octet ↦ (octet ∷ used, some octet)
]

-- ===== src/Network/Addr.antt =====
-- The part of Go's package `net/netip` that the network uses, for IPv4.
use fleetbox.Base.{ℕ, ◌+◌, ◌-◌, ◌*◌, ◌/◌, ◌^◌, Bool, ltb, ◌==◌, if◌then◌else◌}

-- An address is its 32 bits, most significant byte first.
abbrev pub Addr : Type 0
Addr = ℕ

pub record Prefix : Type 0 where
  pub addr : Addr
  pub bits : ℕ

-- The number of addresses that a prefix leaves open.
abbrev pub block : Prefix → ℕ
block p = 2 ^ (32 - p.bits)

-- `p.Contains(a)`: the leading bits agree.
abbrev pub contains : Prefix → Addr → Bool
contains p a = p.addr / block p == a / block p

-- `p.Overlaps(q)`: the leading bits agree, as many as the shorter prefix has.
abbrev pub overlaps : Prefix → Prefix → Bool
overlaps p q =
    if ltb p.bits q.bits
    then p.addr / block p == q.addr / block p
    else p.addr / block q == q.addr / block q

-- The /24 networks that are tried: 192.168.octet.0/24.
abbrev pub candidate : ℕ → Prefix
candidate octet = record { addr = 0xc0a80000 + octet * 256; bits = 24 }

-- 192.168.0.0/16
abbrev pub private_range : Prefix
private_range = record { addr = 0xc0a80000; bits = 16 }

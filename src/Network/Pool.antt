-- ===== src/Network/Pool.antt =====
-- internal/backend/cloudhypervisor/network.go: `Reserve`, the addresses of one network.
pub mod Laws
pub mod Allocation
use fleetbox.Base.{
  ℕ, zero, suc, ◌+◌, ◌-◌, ◌/◌, ◌%◌, ◌^◌, ◌<◌, ◌≡◌, refl, ◌↔◌, inl, inr, Bool, true, false, ◌&&◌,
  not, Option, none, some, List, [], ◌∷◌, arith, ◌==◌, if◌then◌else◌, ==_iff, Bool-cases, any, In,
}
use fleetbox.Base.Results.{err}
use fleetbox.Base.Sets.{has}
use fleetbox.Base.Heap.{set}
use fleetbox.Network.Addr.{Addr, block, contains, candidate, Prefix}

-- The fields of `chNetwork` that `Reserve` uses; `reserved` is `none` until its first call.
pub record Pool : Type 0 where
  pub subnet : Prefix
  pub gateway : Addr
  pub reserved : Option (List Addr)

-- `n.reserved[a]`
unfoldable pub taken : List Addr → Addr → Bool
taken [] a = false
taken (x ∷ xs) a = elim (x == a) [ true ↦ true | false ↦ taken xs a ]

-- `bytes[i/8] |= 1 << (7 - i%8)` sets bit 31 - i of the address.
unfoldable pub set_bit : Addr → ℕ → Addr
set_bit a j = if (a / 2 ^ j) % 2 == 1 then a else a + 2 ^ j

-- The loop of `lastAddr`, over the bits that are left, counted from the lowest.
unfoldable pub fill_bits : ℕ → Addr → Addr
fill_bits zero a = a
fill_bits (suc j) a = fill_bits j (set_bit a j)

-- `lastAddr`
unfoldable pub last_addr : Prefix → Addr
last_addr p = fill_bits (32 - p.bits) p.addr

-- The reservations, made on the first call.
unfoldable pub reservations : Pool → List Addr
reservations n = elim n.reserved [ none ↦ n.gateway ∷ [] | some r ↦ r ]

pub take_addr : Pool → Addr → Pool
take_addr n a = record n { reserved = some (a ∷ reservations n) }

-- The loop over the host addresses, with as many rounds as the prefix has addresses.
unfoldable pub first_free : ℕ → Prefix → Addr → List Addr → Addr → Option Addr
first_free zero p broadcast used cand = none
first_free (suc f) p broadcast used cand = elim (contains p cand && not (cand == broadcast)) [
  | false ↦ none
  | true ↦ elim (taken used cand) [
    | false ↦ some cand
    | true ↦ first_free f p broadcast used (cand + 1)
  ]
]

unfoldable pub hand_out : Pool → Option Addr → Pool × Option Addr
hand_out n none = (record n { reserved = some (reservations n) }, none)
hand_out n (some a) = (take_addr n a, some a)

unfoldable pub reserve_free : Pool → Pool × Option Addr
reserve_free n =
    hand_out n
      (first_free (block n.subnet) n.subnet (last_addr n.subnet) (reservations n) (n.gateway + 1))

-- The test on a hint that parses.
pub is_usable : Pool → Addr → Bool
is_usable n a = contains n.subnet a && not (a == n.gateway) && not (taken (reservations n) a)

-- `Reserve`. A hint that is empty or does not parse as an IPv4 address is `none`; no address is the
-- error "no free IP".
unfoldable pub reserve_addr : Pool → Option Addr → Pool × Option Addr
reserve_addr n none = reserve_free n
reserve_addr n (some a) = if is_usable n a then (take_addr n a, some a) else reserve_free n

-- A network as `CreateNetwork` makes it on a /24: the gateway is the first host address.
abbrev pub new_pool : ℕ → Pool
new_pool octet = record {
  subnet = candidate octet;
  gateway = (candidate octet).addr + 1;
  reserved = none;
}

pub taken_iff : (xs : List Addr) (a : Addr) → (taken xs a ≡ true) ↔ In a xs
unfolding taken
taken_iff [] a = (λ e. cc, λ h. absurd h)
taken_iff (x ∷ xs) a = elim (Bool-cases (x == a)) [
  | inl e ↦ rw (e, taken) (λ _. inl ((==_iff x a).0 e), λ _. refl)
  | inr e ↦
      rw (e, taken)
        (
          λ h. inr ((taken_iff xs a).0 h),
          elim [ inl q ↦ absurd (differ q e) | inr m ↦ (taken_iff xs a).1 m ],
        )
]
  where
    differ : x ≡ a → (x == a) ≡ false → ⊥
    differ q e = cc ((==_iff x a).1 q)

set_bit_clear : (a j : ℕ) → (a / 2 ^ j) % 2 ≡ 0 → set_bit a j ≡ a + 2 ^ j
unfolding set_bit
set_bit_clear a j h = ground arith

-- The last address of such a network, by the bit loop, is its .255.
pub last_addr-candidate : (octet : ℕ) → last_addr (candidate octet) ≡ (candidate octet).addr + 255
unfolding last_addr fill_bits
last_addr-candidate octet =
    let base : ℕ = (candidate octet).addr in
    let e7 = set_bit_clear base 7 (omega arith) in
    let e6 = set_bit_clear (base + 128) 6 (omega arith) in
    let e5 = set_bit_clear ((base + 128) + 64) 5 (omega arith) in
    let e4 = set_bit_clear (((base + 128) + 64) + 32) 4 (omega arith) in
    let e3 = set_bit_clear ((((base + 128) + 64) + 32) + 16) 3 (omega arith) in
    let e2 = set_bit_clear (((((base + 128) + 64) + 32) + 16) + 8) 2 (omega arith) in
    let e1 = set_bit_clear ((((((base + 128) + 64) + 32) + 16) + 8) + 4) 1 (omega arith) in
    let e0 = set_bit_clear (((((((base + 128) + 64) + 32) + 16) + 8) + 4) + 2) 0 (omega arith) in
    rw (e7, e6, e5, e4, e3, e2, e1, e0) (omega arith)

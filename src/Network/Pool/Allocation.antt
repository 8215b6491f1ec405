-- ===== src/Network/Pool/Allocation.antt =====
-- internal/backend/cloudhypervisor/network.go: `Reserve` over the life of a network.
use fleetbox.Base.{
  ℕ, ◌+◌, ◌≡◌, refl, sym, ap, ◌∙◌, ◌≢◌, inl, inr, true, false, Option, none, some, List, [], ◌∷◌,
  arith, Bool-cases, In, All, Distinct,
}
use fleetbox.Network.Addr.{Addr, contains, candidate}
use fleetbox.Network.Pool.{
  taken, reservations, take_addr, hand_out, reserve_free, is_usable, reserve_addr, new_pool,
  taken_iff, Pool,
}
use fleetbox.Network.Pool.Laws.{
  broadcast, Finds, contains_range, start, search_free, search-Finds, reserve_free_eq,
  take_addr-Allocates, reserve_free-Allocates, OnSubnet, Allocates,
}

-- On a network 192.168.x.0/24 with its first host as the gateway, an address that `Reserve` hands
-- out, for any hint, lies in the subnet, is not the gateway's, and was not handed out before; and
-- it is recorded as handed out.
pub reserve_addr-Allocates :
    (octet : ℕ) (n : Pool) (hint : Option Addr) {n' : Pool} {a : Addr}
    → OnSubnet octet n
    → reserve_addr n hint ≡ (n', some a)
    → Allocates octet n n' a
unfolding reserve_addr
reserve_addr-Allocates octet n none s e = reserve_free-Allocates octet n s e
reserve_addr-Allocates octet n (some h) s e = elim (Bool-cases (is_usable n h)) [
  | inr u ↦ reserve_free-Allocates octet n s (rw u at e)
  | inl u ↦
      let (within, apart, free) = usable h u in
      take_addr-Allocates octet n h s (rw (s.subnet) at within) (λ q. apart (q ∙ sym s.gateway))
        free (rw u at e)
]
  where
    usable :
        (h : Addr)
        → is_usable n h ≡ true
        → (contains n.subnet h ≡ true) × (h ≢ n.gateway) × (taken (reservations n) h ≡ false)
    usable h u = unfold is_usable in (ground arith, ground arith, ground arith)

-- On a network 192.168.x.0/24 with its first host as the gateway, the search of `Reserve`, which
-- a call without a usable hint runs, hands out the lowest host address above the gateway that is
-- not handed out, and it refuses only if all of them are.
pub reserve_free-lowest :
    (octet : ℕ) (n : Pool)
    → OnSubnet octet n
    → Finds octet (reservations n) (start octet) (reserve_free n).1
reserve_free-lowest octet n s =
    rw (reserve_free_eq octet n s)
      (handed (search_free octet (reservations n)) (search-Finds octet (reservations n)))
  where
    handed :
        (r : Option Addr)
        → Finds octet (reservations n) (start octet) r
        → Finds octet (reservations n) (start octet) (hand_out n r).1
    handed none f = unfold hand_out in f
    handed (some a) f = unfold hand_out in f

abbrev addr_list : Option Addr → List Addr → List Addr
addr_list none rest = rest
addr_list (some a) rest = a ∷ rest

-- Any number of calls, with the addresses that they hand out, oldest first.
pub reserve_each : Pool → List (Option Addr) → List Addr
reserve_each n [] = []
reserve_each n (h ∷ hints) =
    let (n', r) = reserve_addr n h in let rest = reserve_each n' hints in addr_list r rest

-- A call that refuses leaves the reservations as they were.
abbrev Refuses : ℕ → Pool → Pool → Type 0
Refuses octet n n' = (reservations n' ≡ reservations n) × OnSubnet octet n'

hand_out-Refuses :
    (octet : ℕ) (n : Pool) (r : Option Addr) {n' : Pool}
    → OnSubnet octet n
    → hand_out n r ≡ (n', none)
    → Refuses octet n n'
unfolding hand_out reservations
hand_out-Refuses octet n none {n'} s e =
    let state : record n { reserved = some (reservations n) } ≡ n' =
      ap (λ (r : Pool × Option Addr). r.0) e in
    rw (← state) (refl, record { subnet = s.subnet; gateway = s.gateway })
hand_out-Refuses octet n (some a) s e = cc

reserve_addr-Refuses :
    (octet : ℕ) (n : Pool) (hint : Option Addr) {n' : Pool}
    → OnSubnet octet n
    → reserve_addr n hint ≡ (n', none)
    → Refuses octet n n'
unfolding reserve_addr reserve_free
reserve_addr-Refuses octet n none s e = hand_out-Refuses octet n _ s e
reserve_addr-Refuses octet n (some h) {n'} s e = elim (Bool-cases (is_usable n h)) [
  | inl u ↦ taken_instead (rw u at e)
  | inr u ↦ hand_out-Refuses octet n _ s (rw u at e)
]
  where
    taken_instead :
        ◌≡◌ {A = Pool × Option Addr} (take_addr n h, some h) (n', none) → Refuses octet n n'
    taken_instead q = cc

not-In-reserve_each :
    (octet : ℕ) (n : Pool) (hints : List (Option Addr)) (a : Addr)
    → OnSubnet octet n
    → In a (reservations n)
    → ¬ In a (reserve_each n hints)
unfolding reserve_each
not-In-reserve_each octet n [] a s m = λ h. h
not-In-reserve_each octet n (h ∷ hints) a s m =
    go (reserve_addr n h) refl (λ n' t k. not-In-reserve_each octet n' hints a t k)
  where
    go :
        (r : Pool × Option Addr)
        → reserve_addr n h ≡ r
        → ((n' : Pool)
            → OnSubnet octet n'
            → In a (reservations n')
            → ¬ In a (reserve_each n' hints))
        → ¬ In a (addr_list r.1 (reserve_each r.0 hints))
    go (n', none) e ih =
        let (same_list, t) = reserve_addr-Refuses octet n h s e in ih n' t (rw same_list m)
    go (n', some b) e ih =
        let w = reserve_addr-Allocates octet n h s e in
        elim [ inl q ↦ w.fresh (rw q m) | inr k ↦ ih n' w.still (rw w.recorded (inr m)) k ]

-- On a network 192.168.x.0/24 with its first host as the gateway, members never share an address:
-- over any sequence of requests, with any hints, the addresses handed out differ from one
-- another, and none is the gateway's.
pub reserve_each-Distinct :
    (octet : ℕ) (n : Pool) (hints : List (Option Addr))
    → OnSubnet octet n
    → Distinct (reserve_each n hints)
      × All (λ a. a ≢ (candidate octet).addr + 1) (reserve_each n hints)
unfolding reserve_each
reserve_each-Distinct octet n [] s = (tt, tt)
reserve_each-Distinct octet n (h ∷ hints) s =
    go (reserve_addr n h) refl (λ n' t. reserve_each-Distinct octet n' hints t)
  where
    go :
        (r : Pool × Option Addr)
        → reserve_addr n h ≡ r
        → ((n' : Pool)
            → OnSubnet octet n'
            → Distinct (reserve_each n' hints)
              × All (λ a. a ≢ (candidate octet).addr + 1) (reserve_each n' hints))
        → Distinct (addr_list r.1 (reserve_each r.0 hints))
          × All (λ a. a ≢ (candidate octet).addr + 1) (addr_list r.1 (reserve_each r.0 hints))
    go (n', none) e ih = ih n' (reserve_addr-Refuses octet n h s e).1
    go (n', some a) e ih =
        let w = reserve_addr-Allocates octet n h s e in
        let rest = ih n' w.still in
        (
          (not-In-reserve_each octet n' hints a w.still (rw w.recorded (inl refl)), rest.0),
          (w.not_gateway, rest.1),
        )

-- An address that a network 192.168.x.0/24 has handed out is handed out again by a new network
-- with the same subnet, if it comes as the hint.
reserve_addr-keeps :
    (octet : ℕ) (n : Pool) (hint : Option Addr) {n' : Pool} {a : Addr}
    → OnSubnet octet n
    → reserve_addr n hint ≡ (n', some a)
    → (reserve_addr (new_pool octet) (some a)).1 ≡ some a
unfolding reserve_addr
reserve_addr-keeps octet n hint {n'} {a} s e =
    let w = reserve_addr-Allocates octet n hint s e in again w.within w.not_gateway
  where
    again :
        contains (candidate octet) a ≡ true
        → a ≢ (candidate octet).addr + 1
        → (reserve_addr (new_pool octet) (some a)).1 ≡ some a
    again within apart = unfold is_usable reservations taken reserve_addr in ground arith

-- On a network 192.168.x.0/24 with its first host as the gateway, a hint that names the broadcast
-- address is taken, if that is not handed out yet.
pub reserve_addr-broadcast :
    (octet : ℕ) (n : Pool)
    → OnSubnet octet n
    → ¬ In (broadcast octet) (reservations n)
    → (reserve_addr n (some (broadcast octet))).1 ≡ some (broadcast octet)
unfolding reserve_addr
reserve_addr-broadcast octet n s free = elim (Bool-cases (is_usable n (broadcast octet))) [
  | inl u ↦ rw u
  | inr u ↦ absurd (refused u)
]
  where
    not_taken : taken (reservations n) (broadcast octet) ≡ false
    not_taken = elim (Bool-cases (taken (reservations n) (broadcast octet))) [
      | inl t ↦ absurd (free ((taken_iff _ _).0 t))
      | inr t ↦ t
    ]

    inside : contains n.subnet (broadcast octet) ≡ true
    inside = rw s.subnet (contains_range octet (broadcast octet) (omega arith) (omega arith))

    refused : is_usable n (broadcast octet) ≡ false → ⊥
    refused u = unfold is_usable in ground (arith, s.gateway, not_taken, inside)

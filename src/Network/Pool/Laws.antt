-- ===== src/Network/Pool/Laws.antt =====
-- internal/backend/cloudhypervisor/network.go: what `Reserve` promises, on the /24 networks in use.
use fleetbox.Base.{
  ℕ, zero, suc, ◌+◌, ◌≤◌, ◌<◌, ◌≡◌, refl, sym, ap, ◌∙◌, ◌≢◌, inl, inr, true, false, Option, none,
  some, List, ◌∷◌, arith, ℕ_discrete, ==_iff, Bool-cases, In,
}
use fleetbox.Network.Addr.{Addr, block, contains, candidate, Prefix}
use fleetbox.Network.Pool.{
  taken, last_addr, reservations, take_addr, first_free, hand_out, reserve_free, taken_iff,
  last_addr-candidate, Pool,
}

-- A pool on 192.168.octet.0/24, in any state of its reservations.
pub record OnSubnet (octet : ℕ) (n : Pool) : Type 0 where
  pub subnet : n.subnet ≡ candidate octet
  pub gateway : n.gateway ≡ (candidate octet).addr + 1

abbrev base : ℕ → Addr
base octet = (candidate octet).addr

abbrev pub broadcast : ℕ → Addr
broadcast octet = base octet + 255

-- What a search from `cand` on gives: the lowest host address that is not used, if there is one.
abbrev pub Finds : ℕ → List Addr → Addr → Option Addr → Type 0
Finds octet used cand none = (c : Addr) → cand ≤ c → c < broadcast octet → taken used c ≡ true
Finds octet used cand (some a) =
    (cand ≤ a)
    × (a < broadcast octet)
    × (taken used a ≡ false)
    × ((c : Addr) → cand ≤ c → c < a → taken used c ≡ true)

pub contains_range :
    (octet a : ℕ) → base octet ≤ a → a ≤ broadcast octet → contains (candidate octet) a ≡ true
contains_range octet a h k = (==_iff _ _).1 (omega arith)

range_contains :
    (octet a : ℕ) → contains (candidate octet) a ≡ true → (base octet ≤ a) × (a ≤ broadcast octet)
range_contains octet a h = let e = (==_iff _ _).0 h in (omega arith, omega arith)

Finds-later :
    (octet : ℕ) (used : List Addr) (cand : Addr) (r : Option Addr)
    → taken used cand ≡ true
    → Finds octet used (cand + 1) r
    → Finds octet used cand r
Finds-later octet used cand none t f =
    λ c h k. elim (ℕ_discrete c cand) [ yes e ↦ rw e t | no n ↦ f c (omega arith) k ]
Finds-later octet used cand (some a) t (lo, hi, free, below) = (
  omega arith,
  hi,
  free,
  λ c h k. elim (ℕ_discrete c cand) [ yes e ↦ rw e t | no n ↦ below c (omega arith) k ],
)

module _ (f : ℕ) (p : Prefix) (last : Addr) (used : List Addr) (cand : Addr) where
  first_free_end : cand ≡ last → first_free (suc f) p last used cand ≡ none
  unfolding first_free
  first_free_end e = ground arith

  first_free_skip :
      contains p cand ≡ true
      → cand ≢ last
      → taken used cand ≡ true
      → first_free (suc f) p last used cand ≡ first_free f p last used (cand + 1)
  unfolding first_free
  first_free_skip c n t = ground arith

  first_free_hit :
      contains p cand ≡ true
      → cand ≢ last
      → taken used cand ≡ false
      → first_free (suc f) p last used cand ≡ some cand
  unfolding first_free
  first_free_hit c n t = ground arith

first_free-Finds :
    (f octet : ℕ) (used : List Addr) (cand : Addr)
    → base octet ≤ cand
    → cand ≤ broadcast octet
    → broadcast octet < cand + f
    → Finds octet used cand (first_free f (candidate octet) (broadcast octet) used cand)
first_free-Finds zero octet used cand lo hi fuel = absurd (omega arith)
first_free-Finds (suc f) octet used cand lo hi fuel = elim (ℕ_discrete cand (broadcast octet)) [
  | yes e ↦ rw (first_free_end f (candidate octet) _ used cand e) (λ c h k. absurd (omega arith))
  | no n ↦ elim (Bool-cases (taken used cand)) [
    | inl t ↦
        rw (first_free_skip f (candidate octet) _ used cand (contains_range octet cand lo hi) n t) (
          Finds-later octet used cand _ t
            (first_free-Finds f octet used (cand + 1) (omega arith) (omega arith) (omega arith)))
    | inr t ↦
        rw (first_free_hit f (candidate octet) _ used cand (contains_range octet cand lo hi) n t)
          (omega arith, omega arith, t, λ c h k. absurd (omega arith))
  ]
]

abbrev pub start : ℕ → Addr
start octet = (candidate octet).addr + 1 + 1

abbrev pub search_free : ℕ → List Addr → Option Addr
search_free octet used =
    first_free (block (candidate octet)) (candidate octet) (last_addr (candidate octet)) used
      (start octet)

pub search-Finds :
    (octet : ℕ) (used : List Addr) → Finds octet used (start octet) (search_free octet used)
search-Finds octet used =
    rw (last_addr-candidate octet)
      (first_free-Finds 256 octet used (start octet) (omega arith) (omega arith) (omega arith))

-- What `Reserve` has done when it hands out an address.
pub record Allocates (octet : ℕ) (n n' : Pool) (a : Addr) : Type 0 where
  pub within : contains (candidate octet) a ≡ true
  pub not_gateway : a ≢ (candidate octet).addr + 1
  pub fresh : ¬ In a (reservations n)
  pub recorded : reservations n' ≡ a ∷ reservations n
  pub still : OnSubnet octet n'

not-taken : (xs : List Addr) (a : Addr) → taken xs a ≡ false → ¬ In a xs
not-taken xs a e m = cc ((taken_iff xs a).1 m)

take_addr-still :
    (octet : ℕ) (n : Pool) (a : Addr) → OnSubnet octet n → OnSubnet octet (take_addr n a)
unfolding take_addr
take_addr-still octet n a s = record { subnet = s.subnet; gateway = s.gateway }

pub reserve_free_eq :
    (octet : ℕ) (n : Pool)
    → OnSubnet octet n
    → reserve_free n ≡ hand_out n (search_free octet (reservations n))
unfolding reserve_free
reserve_free_eq octet n s = λ i. hand_out n (
    first_free (block (s.subnet i)) (s.subnet i) (last_addr (s.subnet i)) (reservations n)
      (s.gateway i + 1))

pub take_addr-Allocates :
    (octet : ℕ) (n : Pool) (b : Addr) {n' : Pool} {a : Addr}
    → OnSubnet octet n
    → contains (candidate octet) b ≡ true
    → b ≢ (candidate octet).addr + 1
    → taken (reservations n) b ≡ false
    → ◌≡◌ {A = Pool × Option Addr} (take_addr n b, some b) (n', some a)
    → Allocates octet n n' a
unfolding take_addr reservations
take_addr-Allocates octet n b {n'} {a} s within apart free e =
    let state : take_addr n b ≡ n' = ap (λ (r : Pool × Option Addr). r.0) e in
    let same_addr : b ≡ a = cc (ap (λ (r : Pool × Option Addr). r.1) e) in
    rw (← state, ← same_addr)
      (record {
        within = within;
        not_gateway = apart;
        fresh = not-taken (reservations n) b free;
        recorded = refl;
        still = take_addr-still octet n b s;
      })

pub reserve_free-Allocates :
    (octet : ℕ) (n : Pool) {n' : Pool} {a : Addr}
    → OnSubnet octet n
    → reserve_free n ≡ (n', some a)
    → Allocates octet n n' a
reserve_free-Allocates octet n {n'} {a} s e =
    found (search_free octet (reservations n)) (search-Finds octet (reservations n))
      (sym (reserve_free_eq octet n s) ∙ e)
  where
    found :
        (r : Option Addr)
        → Finds octet (reservations n) (start octet) r
        → hand_out n r ≡ (n', some a)
        → Allocates octet n n' a
    found none f q = unfold hand_out in cc
    found (some b) (lo, hi, free, below) q =
        take_addr-Allocates octet n b s (contains_range octet b (omega arith) (omega arith))
          (omega arith) free (unfold hand_out in q)
